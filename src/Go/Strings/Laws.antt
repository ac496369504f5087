-- ===== src/Go/Strings/Laws.antt =====
-- Laws of searching, cutting and splitting at a byte.
use stugan.Base.{
  ℕ, suc, ◌+◌, ◌≤◌, ◌≡◌, ◌≢◌, refl, ap, ◌∙◌, true, false, some, List, [], ◌∷◌, ◌++◌, Bytes, All,
  arith, take, drop, length,
}
use stugan.Go.Strings.{index_byte, before, behind, contains_byte, trim_left, starts_with_byte}

-- No byte of the text is `c`.
abbrev pub Lacks : ℕ → Bytes → Type 0
Lacks c = All (λ b. b ≢ c)

-- The text is not empty and does not start with `c`.
abbrev pub StartsOff : ℕ → Bytes → Type 0
StartsOff c [] = ⊥
StartsOff c (x ∷ s) = x ≢ c

module _ (c : ℕ) where
  pub index_byte-append : (p r : Bytes) → Lacks c p → index_byte (p ++ c ∷ r) c ≡ some (length p)
  unfolding index_byte
  index_byte-append [] r h = ground arith
  index_byte-append (x ∷ p) r (ne, h) = ground (arith, index_byte-append p r h)

  pub before-append : (p r : Bytes) → Lacks c p → before (p ++ c ∷ r) c ≡ p
  unfolding before
  before-append [] r h = ground arith
  before-append (x ∷ p) r (ne, h) = ground (arith, before-append p r h)

  pub before_all : (p : Bytes) → Lacks c p → before p c ≡ p
  unfolding before
  before_all [] h = refl
  before_all (x ∷ p) (ne, h) = ground (arith, before_all p h)

  pub behind-append : (p r : Bytes) → Lacks c p → behind (p ++ c ∷ r) c ≡ r
  unfolding behind
  behind-append [] r h = ground arith
  behind-append (x ∷ p) r (ne, h) = ground (arith, behind-append p r h)

  pub behind_all : (p : Bytes) → Lacks c p → behind p c ≡ []
  unfolding behind
  behind_all [] h = refl
  behind_all (x ∷ p) (ne, h) = ground (arith, behind_all p h)

  pub contains_byte-append : (p r : Bytes) → contains_byte (p ++ c ∷ r) c ≡ true
  unfolding contains_byte
  contains_byte-append [] r = ground arith
  contains_byte-append (x ∷ p) r = ground (arith, contains_byte-append p r)

  pub contains_byte_none : (p : Bytes) → Lacks c p → contains_byte p c ≡ false
  unfolding contains_byte
  contains_byte_none [] h = refl
  contains_byte_none (x ∷ p) (ne, h) = ground (arith, contains_byte_none p h)

  pub trim_left_none : (s r : Bytes) → StartsOff c s → trim_left (s ++ r) c ≡ s ++ r
  unfolding trim_left
  trim_left_none [] r h = absurd h
  trim_left_none (x ∷ s) r h = ground arith

  pub starts_with_byte_none : (s r : Bytes) → StartsOff c s → starts_with_byte (s ++ r) c ≡ false
  unfolding starts_with_byte
  starts_with_byte_none [] r h = absurd h
  starts_with_byte_none (x ∷ s) r h = ground arith

  pub length-behind : (s : Bytes) → length (behind s c) ≤ length s
  unfolding behind
  length-behind [] = omega arith
  length-behind (x ∷ s) = ground (arith, length-behind s)

  pub length-trim_left : (s : Bytes) → length (trim_left s c) ≤ length s
  unfolding trim_left
  length-trim_left [] = omega arith
  length-trim_left (x ∷ s) = ground (arith, length-trim_left s)

module _ {ℓ} {A : Type ℓ} where
  pub take-append : (p r : List A) → take (length p) (p ++ r) ≡ p
  take-append [] r = refl
  take-append (x ∷ p) r = ap (◌∷◌ x) (take-append p r)

  pub drop-append : (p r : List A) → drop (length p) (p ++ r) ≡ r
  drop-append [] r = refl
  drop-append (x ∷ p) r = drop-append p r

  pub take-append_past :
      (p : List A) (x : A) (r : List A) → take (length p + 1) (p ++ x ∷ r) ≡ p ++ x ∷ []
  take-append_past [] x r = refl
  take-append_past (y ∷ p) x r =
      let e : length (y ∷ p) + 1 ≡ suc (length p + 1) = omega arith in
      ap (λ k. take k (y ∷ (p ++ x ∷ r))) e ∙ ap (◌∷◌ y) (take-append_past p x r)

  pub drop-append_past : (p : List A) (x : A) (r : List A) → drop (length p + 1) (p ++ x ∷ r) ≡ r
  drop-append_past [] x r = refl
  drop-append_past (y ∷ p) x r =
      let e : length (y ∷ p) + 1 ≡ suc (length p + 1) = omega arith in
      ap (λ k. drop k (y ∷ (p ++ x ∷ r))) e ∙ drop-append_past p x r
