-- ===== src/Core/Autojoin/Lookups.antt =====
-- What is joined, and with which key, after a channel is added.
use stugan.Base.{
  ◌⊎◌, str_eq_refl, Bool, true, false, ◌&&◌, ◌||◌, Option, none, some, ◌≡◌, refl, ap, sym, ◌∙◌,
  List, [], ◌∷◌, ◌++◌, Bytes, str_eq, str_eq_iff, if◌then◌else◌, if_cases, option_cases, Bool-cases,
  inl, inr, gone_twice, kept_once, not_both, arith,
}
use stugan.Core.Names.{equal_irc, fold_irc, is_channel_name}
use stugan.Core.Autojoin.{
  Autojoin, lookup_channel_key, delete_channel_key, set_channel_key, listed_as, keyed, add_autojoin,
}

-- the key that is stored for a text: none for the empty one
abbrev pub key_of : Bytes → Option Bytes
key_of [] = none
key_of (c ∷ s) = some (c ∷ s)

-- Names that are equal are equal to the same names.
same_fold : (a b x : Bytes) → equal_irc a b ≡ true → equal_irc a x ≡ equal_irc b x
unfolding equal_irc
same_fold a b x e = ap (λ f. str_eq f (fold_irc x)) ((str_eq_iff (fold_irc a) (fold_irc b)).0 e)

apart :
    (k name x : Bytes) → equal_irc k name ≡ false → equal_irc k x ≡ true → equal_irc name x ≡ false
unfolding equal_irc
apart k name x = not_both (fold_irc k) (fold_irc name) (fold_irc x)

lookup-delete :
    (name x : Bytes) (ks : List (Bytes × Bytes))
    → lookup_channel_key x (delete_channel_key name ks)
      ≡ (if equal_irc name x then none else lookup_channel_key x ks)
unfolding lookup_channel_key delete_channel_key
lookup-delete name x [] = ground arith
lookup-delete name x ((k, v) ∷ ks) = elim (Bool-cases (equal_irc k name)) [
  | inl e ↦
      rw (e, lookup-delete name x ks, same_fold k name x e)
        (gone_twice (equal_irc name x) (lookup_channel_key x ks) (some v))
  | inr e ↦
      rw (e, lookup-delete name x ks)
        (kept_once (equal_irc k x) (equal_irc name x) (some v) (lookup_channel_key x ks)
          (apart k name x e))
]

same_name : (k name x : Bytes) → equal_irc name x ≡ true → equal_irc k x ≡ equal_irc k name
unfolding equal_irc
same_name k name x e =
    ap (str_eq (fold_irc k)) (sym ((str_eq_iff (fold_irc name) (fold_irc x)).0 e))

-- a name that is equal is looked up as the same
lookup_same :
    (name x : Bytes) (ks : List (Bytes × Bytes))
    → equal_irc name x ≡ true
    → lookup_channel_key x ks ≡ lookup_channel_key name ks
unfolding lookup_channel_key
lookup_same name x [] e = refl
lookup_same name x ((k, v) ∷ ks) e = rw (same_name k name x e, lookup_same name x ks e) refl

-- The key of a name after one was set: a key that was there already is not touched.
abbrev pub key_after : Bytes → Bytes → List (Bytes × Bytes) → Bytes → Option Bytes
key_after name key ks x = if equal_irc name x then key_of key else lookup_channel_key x ks

untouched :
    (name x : Bytes) (ks : List (Bytes × Bytes)) (o : Option Bytes)
    → lookup_channel_key name ks ≡ o
    → lookup_channel_key x ks ≡ (if equal_irc name x then o else lookup_channel_key x ks)
untouched name x ks o h = elim (Bool-cases (equal_irc name x)) [
  | inl e ↦ rw e (lookup_same name x ks e ∙ h)
  | inr e ↦ rw e refl
]

lookup-set :
    (name key x : Bytes) (ks : List (Bytes × Bytes))
    → lookup_channel_key x (set_channel_key name key ks).0 ≡ key_after name key ks x
unfolding set_channel_key lookup_channel_key
lookup-set name [] x ks =
    let P : List (Bytes × Bytes) × Bool → Type 0 =
      λ r. lookup_channel_key x r.0 ≡ key_after name [] ks x in
    option_cases P (lookup_channel_key name ks) (λ absent. untouched name x ks none absent)
      (λ cur _. lookup-delete name x ks)
lookup-set name (c ∷ s) x ks =
    let P : List (Bytes × Bytes) × Bool → Type 0 =
      λ r. lookup_channel_key x r.0 ≡ key_after name (c ∷ s) ks x in
    let put : P ((name, c ∷ s) ∷ delete_channel_key name ks, true) =
      rw (lookup-delete name x ks) (gone (equal_irc name x)) in
    option_cases P (lookup_channel_key name ks) (λ _. put)
      (λ cur known.
        if_cases P (str_eq cur (c ∷ s))
          (λ same.
            untouched name x ks (some (c ∷ s)) (known ∙ ap some ((str_eq_iff cur (c ∷ s)).0 same)))
          (λ _. put))
  where
    gone :
        (test : Bool)
        → (if test then some (c ∷ s) else (if test then none else lookup_channel_key x ks))
          ≡ (if test then some (c ∷ s) else lookup_channel_key x ks)
    gone true = refl
    gone false = refl

-- whether a name is joined
abbrev pub is_joined : Bytes → List Bytes → Bool
is_joined x [] = false
is_joined x (c ∷ cs) = equal_irc c x || is_joined x cs

is_joined-append :
    (x name : Bytes) (cs : List Bytes)
    → is_joined x (cs ++ name ∷ []) ≡ (is_joined x cs || equal_irc name x)
is_joined-append x name [] = ground arith
is_joined-append x name (c ∷ cs) = ground (arith, is_joined-append x name cs)

-- What a listing says: the name found is an equal one, and it is joined.
Tells : Bytes → List Bytes → Option Bytes → Type 0
Tells name cs none = Unit
Tells name cs (some c) = (equal_irc c name ≡ true) × (is_joined name cs ≡ true)

listed_as-Tells : (name : Bytes) (cs : List Bytes) → Tells name cs (listed_as name cs)
unfolding listed_as Tells
listed_as-Tells name [] = tt
listed_as-Tells name (d ∷ cs) = elim (Bool-cases (equal_irc d name)) [
  | inl e ↦ rw (e, e) (refl, refl)
  | inr e ↦ rw e (further (listed_as name cs) (listed_as-Tells name cs))
]
  where
    further : (o : Option Bytes) → Tells name cs o → Tells name (d ∷ cs) o
    further none t = tt
    further (some c) (same, has) = (same, ground (arith, has))

joined_same :
    (name x : Bytes) (cs : List Bytes)
    → equal_irc name x ≡ true
    → is_joined x cs ≡ is_joined name cs
joined_same name x [] e = refl
joined_same name x (c ∷ cs) e = rw (same_name c name x e, joined_same name x cs e) refl

-- the keys after a channel was added with a key or without
abbrev pub added_key : Bytes → Option Bytes → List (Bytes × Bytes) → Bytes → Option Bytes
added_key name none ks x = lookup_channel_key x ks
added_key name (some key) ks x = key_after name key ks x

-- What is joined and with which key, for every name.
abbrev pub IsAdded : Autojoin → Bytes → Option Bytes → Bytes → Autojoin → Type 0
IsAdded n name key x n' =
    (is_joined x n'.channels ≡ (is_joined x n.channels || equal_irc name x))
    × (lookup_channel_key x n'.channel_keys ≡ added_key name key n.channel_keys x)

keyed-keys :
    (n : Autojoin) (c name : Bytes) (key : Option Bytes) (changed : Bool) (x : Bytes)
    → equal_irc c name ≡ true
    → lookup_channel_key x (keyed n c key changed).0.channel_keys
      ≡ added_key name key n.channel_keys x
unfolding keyed
keyed-keys n c name none changed x e = refl
keyed-keys n c name (some key) changed x e =
    lookup-set c key x n.channel_keys
    ∙ ap (λ test. if test then key_of key else lookup_channel_key x n.channel_keys)
        (same_fold c name x e)

keyed-channels :
    (n : Autojoin) (c : Bytes) (key : Option Bytes) (changed : Bool)
    → (keyed n c key changed).0.channels ≡ n.channels
unfolding keyed
keyed-channels n c none changed = refl
keyed-channels n c (some key) changed = refl

listed :
    (n : Autojoin) (name : Bytes) (key : Option Bytes) (x c : Bytes)
    → equal_irc c name ≡ true
    → is_joined name n.channels ≡ true
    → IsAdded n name key x (keyed n c key false).0
listed n name key x c same has = (
  ap (is_joined x) (keyed-channels n c key false) ∙ already (Bool-cases (equal_irc name x)),
  keyed-keys n c name key false x same,
)
  where
    already :
        (equal_irc name x ≡ true) ⊎ (equal_irc name x ≡ false)
        → is_joined x n.channels ≡ (is_joined x n.channels || equal_irc name x)
    already (inl e) = rw (joined_same name x n.channels e, has) refl
    already (inr e) = rw e (ground arith)

equal_irc_refl : (name : Bytes) → equal_irc name name ≡ true
unfolding equal_irc
equal_irc_refl name = str_eq_refl (fold_irc name)

new :
    (n : Autojoin) (name : Bytes) (key : Option Bytes) (x : Bytes)
    → IsAdded n name key x (keyed (record n { channels = n.channels ++ name ∷ [] }) name key true).0
new n name key x =
    let n' = record n { channels = n.channels ++ name ∷ [] } in
    (
      ap (is_joined x) (keyed-channels n' name key true) ∙ is_joined-append x name n.channels,
      keyed-keys n' name name key true x (equal_irc_refl name),
    )

-- adding a channel, by how it is listed
told :
    (n : Autojoin) (name : Bytes) (key : Option Bytes) (x : Bytes) (o : Option Bytes)
    → Tells name n.channels o
    → let r : Autojoin × Bool = elim o [
      | some c ↦ keyed n c key false
      | none ↦ keyed (record n { channels = n.channels ++ name ∷ [] }) name key true
    ] in
      IsAdded n name key x r.0
unfolding Tells
told n name key x none t = new n name key x
told n name key x (some c) (same, has) = listed n name key x c same has

-- Adding a channel joins it and no other name, if it is the name of a channel; a key that is given is then
-- the key of the name, in whatever case it is written, the empty one clears it, and for every other name, and
-- without a key, the keys stay.
pub add_autojoin-lookups :
    (n : Autojoin) (name : Bytes) (key : Option Bytes) (x : Bytes)
    → (is_joined x (add_autojoin n name key).0.channels
        ≡ (is_joined x n.channels || (is_channel_name name && equal_irc name x)))
      × (lookup_channel_key x (add_autojoin n name key).0.channel_keys ≡ (
          if is_channel_name name
          then added_key name key n.channel_keys x
          else lookup_channel_key x n.channel_keys))
unfolding add_autojoin
add_autojoin-lookups n name key x = elim (Bool-cases (is_channel_name name)) [
  | inl e ↦ rw e (told n name key x (listed_as name n.channels) (listed_as-Tells name n.channels))
  | inr e ↦ rw e (ground arith, refl)
]
