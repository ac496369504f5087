-- ===== src/Base/Tests.antt =====
-- Boolean tests on the native numbers, the conditional, and cases lemmas for computed values.
use Prim.Native.Nat.{ℕ, ◌≤◌, ◌<◌, compare, Ordering}
use mathlib.Core.Path.{◌≡◌, refl}
use mathlib.Core.Logic.{◌⊎◌, inl, inr}
use mathlib.Core.Bool.{Bool, true, false}
use mathlib.Core.Option.{Option, none, some}
use native.Mathlib.Omega.{arith}

abbrev pub ltb : ℕ → ℕ → Bool
ltb a b = elim (compare a b) [ Ordering.lt ↦ true | _ ↦ false ]

abbrev pub leb : ℕ → ℕ → Bool
leb a b = elim (compare a b) [ Ordering.gt ↦ false | _ ↦ true ]

infix 50 ◌==◌
abbrev pub ◌==◌ : ℕ → ℕ → Bool
a == b = elim (compare a b) [ Ordering.eq ↦ true | _ ↦ false ]

infix 1 if◌then◌else◌
abbrev pub if◌then◌else◌ {ℓ} : {A : Type ℓ} → Bool → A → A → A
if true then x else y = x
if false then x else y = y

-- Errors with no value: `none` ends a `do` block.
infixl 5 ◌>>=◌
abbrev pub ◌>>=◌ {ℓ κ} : {A : Type ℓ} {B : Type κ} → Option A → (A → Option B) → Option B
none >>= f = none
some a >>= f = f a

pub ltb→lt : (a b : ℕ) → ltb a b ≡ true → a < b
ltb→lt a b h = ground arith

pub ltb→le : (a b : ℕ) → ltb a b ≡ false → b ≤ a
ltb→le a b h = ground arith

pub ==→eq : (a b : ℕ) → (a == b) ≡ true → a ≡ b
==→eq a b h = ground arith

pub Bool-cases : (b : Bool) → (b ≡ true) ⊎ (b ≡ false)
Bool-cases true = inl refl
Bool-cases false = inr refl

-- To prove something of a conditional, prove it of both branches, each from its test.
pub if_cases {ℓ κ} :
    {A : Type ℓ} (P : A → Type κ) (b : Bool) {x y : A}
    → (b ≡ true → P x)
    → (b ≡ false → P y)
    → P (if b then x else y)
if_cases P true f g = f refl
if_cases P false f g = g refl

pub Option-cases {ℓ} : {A : Type ℓ} (o : Option A) → (o ≡ none) ⊎ ((a : A) × (o ≡ some a))
Option-cases none = inl refl
Option-cases (some a) = inr (a, refl)

-- The same of a value that may be missing.
pub option_cases {ℓ κ μ} :
    {A : Type ℓ} {B : Type κ} (P : B → Type μ) (o : Option A) {x : B} {f : A → B}
    → (o ≡ none → P x)
    → ((a : A) → o ≡ some a → P (f a))
    → P (elim o [ none ↦ x | some a ↦ f a ])
option_cases P none g h = g refl
option_cases P (some a) g h = h a refl

-- Two values that are decided by the same test.
pub if_both {ℓ κ μ} :
    {A : Type ℓ} {B : Type κ} (P : A → B → Type μ) (b : Bool) {x y : A} {u v : B}
    → (b ≡ true → P x u)
    → (b ≡ false → P y v)
    → P (if b then x else y) (if b then u else v)
if_both P true f g = f refl
if_both P false f g = g refl

pub option_both {ℓ κ μ ν} :
    {A : Type ℓ} {B : Type κ} {C : Type μ} (P : B → C → Type ν) (o : Option A) {x : B} {f : A → B}
    {u : C} {k : A → C}
    → (o ≡ none → P x u)
    → ((a : A) → o ≡ some a → P (f a) (k a))
    → P (elim o [ none ↦ x | some a ↦ f a ]) (elim o [ none ↦ u | some a ↦ k a ])
option_both P none g h = g refl
option_both P (some a) g h = h a refl

-- Deciding the same twice, and deciding in either order.
pub gone_twice {ℓ} :
    {A : Type ℓ} (c : Bool) (x y : Option A)
    → (if c then none else x) ≡ (if c then none else (if c then y else x))
gone_twice true x y = refl
gone_twice false x y = refl

pub kept_once {ℓ} :
    {A : Type ℓ} (a c : Bool) (y x : Option A)
    → (a ≡ true → c ≡ false)
    → (if a then y else (if c then none else x)) ≡ (if c then none else (if a then y else x))
kept_once true c y x h = rw (h refl) refl
kept_once false c y x h = refl
