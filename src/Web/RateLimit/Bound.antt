-- ===== src/Web/RateLimit/Bound.antt =====
-- The limiter's map stays within its bound.
use stugan.Base.{
  ℕ, suc, ◌-◌, ◌++◌, ◌≤◌, ◌<◌, true, false, ◌||◌, List, [], ◌∷◌, map, Bytes, length, ltb, leb,
  if◌then◌else◌, str_eq, str_eq_iff, str_eq_refl, ◌≡◌, refl, ap, sym, ◌∙◌, arith, All, Bool-cases,
  if_cases, inl, inr, ◌⊎◌,
}
use stugan.Web.RateLimit.{
  Hits, AuthRateLimit, bucket, exists, delete, assign, drop_stale, store, prune_locked, prune_each,
  prune_all_locked, key_of, last_time, is_blank, find_oldest, evict_oldest_locked, make_room, fail,
}

-- no entry has the empty address
abbrev pub Named : Hits → Type 0
Named = All (λ e. is_blank (key_of e) ≡ false)

module _ (ip : Bytes) where
  length-delete : (hits : Hits) → length (delete hits ip) ≤ length hits
  unfolding delete
  length-delete [] = ground arith
  length-delete ((k, a) ∷ hits) = ground (arith, length-delete hits)

  length-delete_exists :
      (hits : Hits) → exists hits ip ≡ true → length (delete hits ip) < length hits
  unfolding delete exists
  length-delete_exists [] h = ground arith
  length-delete_exists ((k, a) ∷ hits) h =
      ground (arith, length-delete hits, length-delete_exists hits)

  length-assign :
      (hits : Hits) (a : List ℕ)
      → length (assign hits ip a) ≡ (if exists hits ip then length hits else suc (length hits))
  unfolding assign exists
  length-assign [] a = refl
  length-assign ((k, b) ∷ hits) a = ground (arith, length-assign hits a)

  delete-Named : (hits : Hits) → Named hits → Named (delete hits ip)
  unfolding delete
  delete-Named [] h = h
  delete-Named ((k, a) ∷ hits) (h, hs) = ground (arith, delete-Named hits hs)

  assign-Named :
      (hits : Hits) (a : List ℕ) → is_blank ip ≡ false → Named hits → Named (assign hits ip a)
  unfolding assign
  assign-Named [] a name h = (name, h)
  assign-Named ((k, b) ∷ hits) a name (h, hs) = ground (arith, assign-Named hits a name hs)

  bucket-exists : (hits : Hits) → 0 < length (bucket hits ip) → exists hits ip ≡ true
  unfolding bucket exists
  bucket-exists [] h = ground arith
  bucket-exists ((k, a) ∷ hits) h = ground (arith, bucket-exists hits)

  exists-Named : (hits : Hits) → exists hits ip ≡ true → Named hits → is_blank ip ≡ false
  unfolding exists
  exists-Named [] h named = ground arith
  exists-Named ((k, a) ∷ hits) h (name, names) = elim (Bool-cases (str_eq k ip)) [
    | inl same ↦ ap is_blank (sym ((str_eq_iff k ip).0 same)) ∙ name
    | inr other ↦ exists-Named hits (ground arith) names
  ]

  length-store :
      (hits : Hits) (kept : List ℕ) → length (store hits ip (bucket hits ip) kept) ≤ length hits
  unfolding store
  length-store hits [] = length-delete hits
  length-store hits (t ∷ kept) =
      if_cases (λ (g : Hits). length g ≤ length hits)
        (ltb (length (t ∷ kept)) (length (bucket hits ip))) {x = assign hits ip (t ∷ kept)}
        {y = hits} (λ e. ground (arith, length-assign hits (t ∷ kept), bucket-exists hits))
        (λ _. omega arith)

  store-Named :
      (hits : Hits) (kept : List ℕ) → Named hits → Named (store hits ip (bucket hits ip) kept)
  unfolding store
  store-Named hits [] h = delete-Named hits h
  store-Named hits (t ∷ kept) h =
      if_cases Named (ltb (length (t ∷ kept)) (length (bucket hits ip)))
        (λ e.
          let there = bucket-exists hits (ground arith) in
          assign-Named hits (t ∷ kept) (exists-Named hits there h) h)
        (λ _. h)

  prune_locked-length :
      (hits : Hits) (cutoff : ℕ) → length (prune_locked hits ip cutoff) ≤ length hits
  unfolding prune_locked
  prune_locked-length hits cutoff = length-store hits (drop_stale cutoff (bucket hits ip))

  prune_locked-Named : (hits : Hits) (cutoff : ℕ) → Named hits → Named (prune_locked hits ip cutoff)
  unfolding prune_locked
  prune_locked-Named hits cutoff h = store-Named hits (drop_stale cutoff (bucket hits ip)) h

prune_each_lem :
    (ips : List Bytes) (hits : Hits) (cutoff : ℕ)
    → Named hits
    → (length (prune_each ips hits cutoff) ≤ length hits) × Named (prune_each ips hits cutoff)
unfolding prune_each
prune_each_lem [] hits cutoff h = (omega arith, h)
prune_each_lem (ip ∷ ips) hits cutoff h =
    let (less, names) =
      prune_each_lem ips (prune_locked hits ip cutoff) cutoff
        (prune_locked-Named ip hits cutoff h) in
    (omega (arith, prune_locked-length ip hits cutoff), names)

-- The loop only deletes.
find_oldest_lem :
    (es : Hits) (oldest_ip : Bytes) (oldest : ℕ) (hits : Hits)
    → Named hits
    → (length (find_oldest es oldest_ip oldest hits).1 ≤ length hits)
      × Named (find_oldest es oldest_ip oldest hits).1
unfolding find_oldest
find_oldest_lem [] oldest_ip oldest hits h = (omega arith, h)
find_oldest_lem ((ip, []) ∷ es) oldest_ip oldest hits h =
    let (less, names) =
      find_oldest_lem es oldest_ip oldest (delete hits ip) (delete-Named ip hits h) in
    (omega (arith, length-delete ip hits), names)
find_oldest_lem ((ip, t ∷ a) ∷ es) oldest_ip oldest hits h =
    elim (Bool-cases (is_blank oldest_ip || ltb (last_time t a) oldest)) [
      | inl e ↦ rw (e, find_oldest) (find_oldest_lem es ip (last_time t a) hits h)
      | inr e ↦ rw (e, find_oldest) (find_oldest_lem es oldest_ip oldest hits h)
    ]

-- an address that a deletion would take out of the map
abbrev IsThere : Hits → Bytes → Type 0
IsThere hits ip = (is_blank ip ≡ false) × (exists hits ip ≡ true)

-- The loop has deleted something, or it has found an address of the map.
find_oldest-found :
    (es : Hits) (oldest_ip : Bytes) (oldest : ℕ) (hits : Hits)
    → Named hits
    → All (λ e. IsThere hits (key_of e)) es
    → (is_blank oldest_ip ≡ false → exists hits oldest_ip ≡ true)
    → (0 < length es) ⊎ (is_blank oldest_ip ≡ false)
    → (length (find_oldest es oldest_ip oldest hits).1 < length hits)
      ⊎ (((find_oldest es oldest_ip oldest hits).1 ≡ hits)
          × IsThere hits (find_oldest es oldest_ip oldest hits).0)
unfolding find_oldest
find_oldest-found [] oldest_ip oldest hits h there real (inl some_entry) = absurd (omega arith)
find_oldest-found [] oldest_ip oldest hits h there real (inr found) =
    inr (refl, (found, real found))
find_oldest-found ((ip, []) ∷ es) oldest_ip oldest hits h (at, there) real found =
    let (less, names) =
      find_oldest_lem es oldest_ip oldest (delete hits ip) (delete-Named ip hits h) in
    inl (omega (arith, length-delete_exists ip hits at.1))
find_oldest-found ((ip, t ∷ a) ∷ es) oldest_ip oldest hits h (at, there) real found =
    elim (Bool-cases (is_blank oldest_ip || ltb (last_time t a) oldest)) [
      | inl e ↦
          rw (e, find_oldest)
            (find_oldest-found es ip (last_time t a) hits h there (λ _. at.1) (inr at.0))
      | inr e ↦
          rw (e, find_oldest)
            (find_oldest-found es oldest_ip oldest hits h there real (inr (ground arith)))
    ]

-- every entry of a map is in it
entries-IsThere :
    (k : Bytes) (a : List ℕ) (hits es : Hits)
    → All (λ e. IsThere hits (key_of e)) es
    → All (λ e. IsThere ((k, a) ∷ hits) (key_of e)) es
unfolding exists
entries-IsThere k a hits [] h = h
entries-IsThere k a hits (e ∷ es) (h, hs) =
    ((h.0, ground (arith, h.1)), entries-IsThere k a hits es hs)

Named-IsThere : (hits : Hits) → Named hits → All (λ e. IsThere hits (key_of e)) hits
unfolding exists
Named-IsThere [] h = h
Named-IsThere ((k, a) ∷ hits) (h, hs) =
    ((h, ground (arith, str_eq_refl k)), entries-IsThere k a hits hits (Named-IsThere hits hs))

-- Evicting makes room, in a map that has an entry.
evict_oldest_locked_lem :
    (hits : Hits)
    → Named hits
    → 0 < length hits
    → (length (evict_oldest_locked hits) < length hits) × Named (evict_oldest_locked hits)
unfolding evict_oldest_locked
evict_oldest_locked_lem hits h some_entry =
    let r = find_oldest hits [] 0 hits in
    let (less, names) = find_oldest_lem hits [] 0 hits h in
    let found =
      find_oldest-found hits [] 0 hits h (Named-IsThere hits h) (λ e. ground (arith, e))
        (inl some_entry) in
    elim found [
      | inl fewer ↦
          if_cases (λ (g : Hits). (length g < length hits) × Named g) (is_blank r.0)
            (λ _. (fewer, names))
            (λ _. (omega (arith, length-delete r.0 r.1, fewer), delete-Named r.0 r.1 names))
      | inr (kept, (name, there)) ↦ rw name (
        omega (arith, length-delete_exists r.0 r.1 (ap (λ g. exists g r.0) kept ∙ there), less),
        delete-Named r.0 r.1 names,
      )
    ]

prune_all_locked_lem :
    (hits : Hits) (cutoff : ℕ)
    → Named hits
    → (length (prune_all_locked hits cutoff) ≤ length hits) × Named (prune_all_locked hits cutoff)
unfolding prune_all_locked
prune_all_locked_lem hits cutoff h = prune_each_lem (map key_of hits) hits cutoff h

make_room_same :
    (r : AuthRateLimit) (hits : Hits) (ip : Bytes) (now : ℕ)
    → exists hits ip ≡ true
    → make_room r hits ip now ≡ hits
unfolding make_room
make_room_same r hits ip now there = rw there refl

make_room-fits :
    (r : AuthRateLimit) (hits : Hits) (ip : Bytes) (now : ℕ)
    → Named hits
    → length hits ≤ r.max_ips
    → 0 < r.max_ips
    → exists hits ip ≡ false
    → (length (make_room r hits ip now) < r.max_ips) × Named (make_room r hits ip now)
unfolding make_room
make_room-fits r hits ip now h bound pos new =
    let Fits : Hits → Type 0 = λ g. (length g < r.max_ips) × Named g in
    let fresh = prune_all_locked hits (now - r.window) in
    let (less, names) = prune_all_locked_lem hits (now - r.window) h in
    rw new (
      if_cases Fits (leb r.max_ips (length hits))
        (λ _.
          if_cases Fits (leb r.max_ips (length fresh))
            (λ full.
              let some_entry : 0 < length fresh = ground (arith, full) in
              let (fewer, left) = evict_oldest_locked_lem fresh names some_entry in
              (omega arith, left))
            (λ room. (ground (arith, room), names)))
        (λ room. (ground (arith, room), h)))

-- A failure of a named address keeps the number of addresses within the bound of the map, if the
-- bound is not 0, and keeps every address of the map named.
pub fail-bounded :
    (r : AuthRateLimit) (ip : Bytes) (now : ℕ)
    → is_blank ip ≡ false
    → 0 < r.max_ips
    → Named r.hits
    → length r.hits ≤ r.max_ips
    → (length (fail r ip now).hits ≤ r.max_ips) × Named (fail r ip now).hits
unfolding fail
fail-bounded r ip now name pos h bound =
    let hits = prune_locked r.hits ip (now - r.window) in
    let h' = prune_locked-Named ip r.hits (now - r.window) h in
    let bound' : length hits ≤ r.max_ips =
      omega (arith, prune_locked-length ip r.hits (now - r.window)) in
    let made = make_room r hits ip now in
    let after = bucket made ip ++ now ∷ [] in
    let size = length-assign ip made after in
    elim (Bool-cases (exists hits ip)) [
      | inl there ↦
          let same : made ≡ hits = make_room_same r hits ip now there in
          let there' : exists made ip ≡ true = ap (λ g. exists g ip) same ∙ there in
          (
            ground (arith, ap length same, size, there'),
            assign-Named ip made after name (rw same h'),
          )
      | inr new ↦
          let (fits, names) = make_room-fits r hits ip now h' bound' pos new in
          (
            elim (Bool-cases (exists made ip)) [
              | inl there' ↦ ground (arith, size, there')
              | inr new' ↦ ground (arith, size, new')
            ],
            assign-Named ip made after name names,
          )
    ]
