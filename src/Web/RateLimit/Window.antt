-- ===== src/Web/RateLimit/Window.antt =====
-- What the limiter answers, from the failures in the window.
use stugan.Base.{
  ℕ, suc, ◌-◌, ◌++◌, ◌≤◌, ◌<◌, true, false, List, [], ◌∷◌, Bytes, length, ltb, if◌then◌else◌,
  str_eq, str_eq_iff, str_eq_refl, ◌≡◌, refl, ap, sym, ◌∙◌, arith, All, Bool-cases, inl, inr,
}
use stugan.Web.RateLimit.{
  Hits, AuthRateLimit, bucket, delete, assign, drop_stale, store, prune_locked, make_room, fail,
  allow,
}

-- each time is at or before all that follow
abbrev pub Ascending : List ℕ → Type 0
Ascending [] = Unit
Ascending (t ∷ a) = All (λ u. t ≤ u) a × Ascending a

-- how many times are at the cutoff or past it
abbrev pub count_recent : ℕ → List ℕ → ℕ
count_recent cutoff [] = 0
count_recent cutoff (t ∷ a) =
    if ltb t cutoff then count_recent cutoff a else suc (count_recent cutoff a)

count_recent-All :
    (cutoff t : ℕ) (a : List ℕ) → cutoff ≤ t → All (λ u. t ≤ u) a → count_recent cutoff a ≡ length a
count_recent-All cutoff t [] le h = refl
count_recent-All cutoff t (u ∷ a) le (h, hs) = ground (arith, count_recent-All cutoff t a le hs)

length-drop_stale :
    (cutoff : ℕ) (a : List ℕ) → Ascending a → length (drop_stale cutoff a) ≡ count_recent cutoff a
unfolding drop_stale
length-drop_stale cutoff [] h = refl
length-drop_stale cutoff (t ∷ a) (h, hs) = elim (Bool-cases (ltb t cutoff)) [
  | inl e ↦ rw e (length-drop_stale cutoff a hs)
  | inr e ↦ rw e (ap suc (sym (count_recent-All cutoff t a (ground (arith, e)) h)))
]

drop_stale_le : (cutoff : ℕ) (a : List ℕ) → length (drop_stale cutoff a) ≤ length a
unfolding drop_stale
drop_stale_le cutoff [] = omega arith
drop_stale_le cutoff (t ∷ a) = ground (arith, drop_stale_le cutoff a)

drop_stale_all :
    (cutoff : ℕ) (a : List ℕ) → length a ≤ length (drop_stale cutoff a) → drop_stale cutoff a ≡ a
unfolding drop_stale
drop_stale_all cutoff [] h = refl
drop_stale_all cutoff (t ∷ a) h = ground (arith, drop_stale_le cutoff a)

same_test : (k ip q : Bytes) → str_eq k ip ≡ true → str_eq k q ≡ str_eq ip q
same_test k ip q e = ap (λ x. str_eq x q) ((str_eq_iff k ip).0 e)

other_test : (k ip q : Bytes) → str_eq k ip ≡ false → str_eq ip q ≡ true → str_eq k q ≡ false
other_test k ip q e h = rw⁻¹ ((str_eq_iff ip q).0 h) e

module _ (ip q : Bytes) where
  bucket-delete :
      (hits : Hits) → bucket (delete hits ip) q ≡ (if str_eq ip q then [] else bucket hits q)
  unfolding bucket delete
  bucket-delete [] = ground arith
  bucket-delete ((k, a) ∷ hits) = elim (Bool-cases (str_eq k ip)) [
    | inl same ↦ let t = same_test k ip q same in ground (arith, bucket-delete hits, t, same)
    | inr other ↦ ground (arith, bucket-delete hits, other_test k ip q other, other)
  ]

  bucket-assign :
      (hits : Hits) (a : List ℕ)
      → bucket (assign hits ip a) q ≡ (if str_eq ip q then a else bucket hits q)
  unfolding bucket assign
  bucket-assign [] a = refl
  bucket-assign ((k, b) ∷ hits) a = elim (Bool-cases (str_eq k ip)) [
    | inl same ↦ let t = same_test k ip q same in ground (arith, bucket-assign hits a, t, same)
    | inr other ↦ ground (arith, bucket-assign hits a, other_test k ip q other, other)
  ]

  bucket-store :
      (hits : Hits) (kept : List ℕ)
      → (length (bucket hits ip) ≤ length kept → kept ≡ bucket hits ip)
      → bucket (store hits ip (bucket hits ip) kept) q
        ≡ (if str_eq ip q then kept else bucket hits q)
  unfolding store
  bucket-store hits [] full = bucket-delete hits
  bucket-store hits (t ∷ kept) full =
      elim (Bool-cases (ltb (length (t ∷ kept)) (length (bucket hits ip)))) [
        | inl e ↦ rw (e, store) (bucket-assign hits (t ∷ kept))
        | inr e ↦
            let all = full (ground (arith, e)) in
            rw (e, store)
              (elim (Bool-cases (str_eq ip q)) [
                | inl same ↦ rw same (ap (bucket hits) (sym ((str_eq_iff ip q).0 same)) ∙ sym all)
                | inr other ↦ rw other refl
              ])
      ]

  -- Pruning drops what is stale of one bucket and leaves the others.
  bucket-prune_locked :
      (hits : Hits) (cutoff : ℕ)
      → bucket (prune_locked hits ip cutoff) q
        ≡ (if str_eq ip q then drop_stale cutoff (bucket hits ip) else bucket hits q)
  unfolding prune_locked
  bucket-prune_locked hits cutoff =
      bucket-store hits (drop_stale cutoff (bucket hits ip))
        (drop_stale_all cutoff (bucket hits ip))

-- Where the failures of an address were stored in the order of their times, it may try again
-- exactly if fewer of them than the limit lie within the window.
pub allow_lem :
    (r : AuthRateLimit) (ip : Bytes) (now : ℕ)
    → Ascending (bucket r.hits ip)
    → (allow r ip now).1 ≡ ltb (count_recent (now - r.window) (bucket r.hits ip)) r.max
unfolding allow
allow_lem r ip now h =
    let cutoff = now - r.window in
    ap (λ a. ltb (length a) r.max)
      (bucket-prune_locked ip ip r.hits cutoff ∙ rw (str_eq_refl ip) refl)
    ∙ ap (λ n. ltb n r.max) (length-drop_stale cutoff (bucket r.hits ip) h)

-- A failure of an address that the map has room for, after the address is pruned, drops the stale
-- times of its bucket, adds the time now, and leaves every other bucket as it was.
pub fail_lem :
    (r : AuthRateLimit) (ip q : Bytes) (now : ℕ)
    → length (prune_locked r.hits ip (now - r.window)) < r.max_ips
    → bucket (fail r ip now).hits q ≡ (
        if str_eq ip q
        then drop_stale (now - r.window) (bucket r.hits ip) ++ now ∷ []
        else bucket r.hits q)
unfolding fail make_room
fail_lem r ip q now room =
    let hits = prune_locked r.hits ip (now - r.window) in
    let roomy : make_room r hits ip now ≡ hits = ground (arith, room) in
    let own : bucket hits ip ≡ drop_stale (now - r.window) (bucket r.hits ip) =
      bucket-prune_locked ip ip r.hits (now - r.window) ∙ rw (str_eq_refl ip) refl in
    rw
      (
        roomy,
        bucket-assign ip q hits (bucket hits ip ++ now ∷ []),
        own,
        bucket-prune_locked ip q r.hits (now - r.window),
      )
      (ground arith)
