-- ===== src/Core/Bouncer/Listed.antt =====
-- The list of a bouncer's networks after an event.
use stugan.Base.{
  gone_twice, kept_once, not_both, Bool, true, false, ◌||◌, Option, none, some, ◌≡◌, refl, subst,
  ap, ◌∙◌, List, [], ◌∷◌, ◌++◌, Bytes, str_eq, str_eq_iff, str_eq_refl, if◌then◌else◌, Bool-cases,
  Option-cases, inl, inr, arith,
}
use stugan.Go.Strings.{is_empty}
use stugan.Core.Bouncer.{
  BouncerNetwork, merge_bouncer_attrs, update_bouncer, delete_bouncer, apply_bouncer, find_bouncer,
}
use stugan.Core.Bouncer.Merged.{merge-IsMerged}

-- a network after a record of it
abbrev pub updated : Option BouncerNetwork → BouncerNetwork → Option (List Bytes) → BouncerNetwork
updated none b keys = b
updated (some old) b keys = elim keys [ none ↦ b | some ks ↦ merge_bouncer_attrs old b ks ]

updated-id :
    (old b : BouncerNetwork) (keys : Option (List Bytes))
    → str_eq old.id b.id ≡ true
    → (updated (some old) b keys).id ≡ b.id
updated-id old b none h = refl
updated-id old b (some ks) h = (merge-IsMerged old b ks).same_id ∙ (str_eq_iff old.id b.id).0 h

find_first :
    {id : Bytes} (b : BouncerNetwork) (bs : List BouncerNetwork)
    → b.id ≡ id
    → find_bouncer id (b ∷ bs) ≡ some b
find_first {id} b bs h = rw (h, str_eq_refl id) refl

module _ (b : BouncerNetwork) (keys : Option (List Bytes)) where
  -- where the network is listed, and where it is not
  Found : List BouncerNetwork → Option (List BouncerNetwork) → Type 0
  Found bs none = find_bouncer b.id bs ≡ none
  Found bs (some bs') = find_bouncer b.id bs' ≡ some (updated (find_bouncer b.id bs) b keys)

  update-Found : (bs : List BouncerNetwork) → Found bs (update_bouncer b keys bs)
  unfolding update_bouncer Found
  update-Found [] = refl
  update-Found (old ∷ bs) = elim (Bool-cases (str_eq old.id b.id)) [
    | inl e ↦ rw (e, e) (find_first (updated (some old) b keys) bs (updated-id old b keys e))
    | inr e ↦ elim (Option-cases (update_bouncer b keys bs)) [
      | inl f ↦ rw (e, f, e) (subst (Found bs) f (update-Found bs))
      | inr (bs', f) ↦ rw (e, f, e) (subst (Found bs) f (update-Found bs))
    ]
  ]

  -- Another network is where it was.
  Spared : Bytes → List BouncerNetwork → Option (List BouncerNetwork) → Type 0
  Spared id bs none = Unit
  Spared id bs (some bs') = find_bouncer id bs' ≡ find_bouncer id bs

  update-Spared :
      (id : Bytes) (bs : List BouncerNetwork)
      → str_eq b.id id ≡ false
      → Spared id bs (update_bouncer b keys bs)
  unfolding update_bouncer Spared
  update-Spared id [] other = tt
  update-Spared id (old ∷ bs) other = elim (Bool-cases (str_eq old.id b.id)) [
    | inl e ↦ rw (e, updated-id old b keys e, (str_eq_iff old.id b.id).0 e, other) refl
    | inr e ↦ elim (Option-cases (update_bouncer b keys bs)) [
      | inl f ↦ rw (e, f) tt
      | inr (bs', f) ↦
          rw (e, f)
            (ap (λ r. if str_eq old.id id then some old else r)
              (subst (Spared id bs) f (update-Spared id bs other)))
    ]
  ]

find-append :
    (id : Bytes) (bs : List BouncerNetwork) (b : BouncerNetwork)
    → find_bouncer id (bs ++ b ∷ []) ≡ elim (find_bouncer id bs) [
      | some c ↦ some c
      | none ↦ if str_eq b.id id then some b else none
    ]
find-append id [] b = refl
find-append id (c ∷ bs) b = elim (Bool-cases (str_eq c.id id)) [
  | inl e ↦ rw (e) refl
  | inr e ↦ rw (e) (find-append id bs b)
]

find-delete :
    (target id : Bytes) (bs : List BouncerNetwork)
    → find_bouncer id (delete_bouncer target bs)
      ≡ (if str_eq target id then none else find_bouncer id bs)
unfolding delete_bouncer
find-delete target id [] = ground arith
find-delete target id (b ∷ bs) = elim (Bool-cases (str_eq b.id target)) [
  | inl e ↦
      rw (e, find-delete target id bs, (str_eq_iff b.id target).0 e)
        (gone_twice (str_eq target id) (find_bouncer id bs) (some (record b { id = target })))
  | inr e ↦
      rw (e, find-delete target id bs)
        (kept_once (str_eq b.id id) (str_eq target id) (some b) (find_bouncer id bs)
          (not_both b.id target id e))
]

-- What is found under an id after an event, from what was found before.
abbrev pub found_after :
    List BouncerNetwork
    → Option BouncerNetwork
    → Option (List Bytes)
    → Bytes
    → Bytes
    → Option BouncerNetwork
found_after bs (some b) keys target id =
    if str_eq b.id id then some (updated (find_bouncer b.id bs) b keys) else find_bouncer id bs
found_after bs none keys target id =
    if is_empty target || str_eq target id then none else find_bouncer id bs

itself :
    (bs : List BouncerNetwork) (b : BouncerNetwork) (keys : Option (List Bytes)) (target : Bytes)
    → find_bouncer b.id (apply_bouncer bs (some b) keys target)
      ≡ some (updated (find_bouncer b.id bs) b keys)
unfolding apply_bouncer Found
itself bs b keys target =
    let found = update-Found b keys bs in
    elim (Option-cases (update_bouncer b keys bs)) [
      | inl f ↦
          let absent : find_bouncer b.id bs ≡ none = subst (Found b keys bs) f found in
          rw (apply_bouncer, f, find-append b.id bs b, absent, str_eq_refl b.id) refl
      | inr (bs', f) ↦ rw (apply_bouncer, f) (subst (Found b keys bs) f found)
    ]

another :
    (bs : List BouncerNetwork) (b : BouncerNetwork) (keys : Option (List Bytes)) (target id : Bytes)
    → str_eq b.id id ≡ false
    → find_bouncer id (apply_bouncer bs (some b) keys target) ≡ find_bouncer id bs
unfolding apply_bouncer Spared
another bs b keys target id e = elim (Option-cases (update_bouncer b keys bs)) [
  | inl f ↦
      rw (apply_bouncer, f, find-append id bs b) (or_none (str_eq b.id id) (find_bouncer id bs) e)
  | inr (bs', f) ↦
      rw (apply_bouncer, f) (subst (Spared b keys id bs) f (update-Spared b keys id bs e))
]
  where
    or_none :
        (test : Bool) (o : Option BouncerNetwork)
        → test ≡ false
        → elim o [ some c ↦ some c | none ↦ if test then some b else none ] ≡ o
    or_none test none h = rw h refl
    or_none test (some c) h = refl

-- What is found in the list after an event: under the id of a record, the network with the attributes
-- that the record carries merged, or the record itself if it is a whole one or the network was not listed;
-- under the id of a network that ended, nothing; under any other id, what was found before, unless
-- the list was dropped.
pub find-apply_bouncer :
    (bs : List BouncerNetwork) (event : Option BouncerNetwork) (keys : Option (List Bytes))
    (target id : Bytes)
    → find_bouncer id (apply_bouncer bs event keys target) ≡ found_after bs event keys target id
unfolding apply_bouncer
find-apply_bouncer bs (some b) keys target id = elim (Bool-cases (str_eq b.id id)) [
  | inl e ↦
      let same = (str_eq_iff b.id id).0 e in
      rw e (
        subst
          (λ id.
            find_bouncer id (apply_bouncer bs (some b) keys target)
            ≡ some (updated (find_bouncer b.id bs) b keys))
          same (itself bs b keys target))
  | inr e ↦ rw e (another bs b keys target id e)
]
find-apply_bouncer bs none keys [] id = refl
find-apply_bouncer bs none keys (c ∷ target) id = find-delete (c ∷ target) id bs
