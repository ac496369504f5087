-- ===== src/Core/ChatHistory/Chain.antt =====
-- A catch-up of one buffer asks for at most ten pages, each from a later time than the one before.
use stugan.Base.{
  Climbs, ◌⊎◌, ℕ, suc, ◌+◌, ◌≤◌, ◌<◌, Bool, true, false, not, ◌&&◌, ◌||◌, Option, none, some, ◌≡◌,
  refl, subst, ap, sym, List, [], ◌∷◌, Bytes, length, ◌==◌, ltb, leb, str_eq, str_eq_iff,
  str_eq_refl, if◌then◌else◌, Bool-cases, if_cases, option_cases, inl, inr, gone_twice, kept_once,
  not_both, arith,
}
use stugan.Core.ChatHistory.{
  History, CatchUp, Batch, Source, get, delete, put, catch_up_key, catch_up_limit,
  catch_up_max_pages, on_history_batch, catch_up_buffer, baseline,
}

get-delete :
    {A : Type 0} (k id : Bytes) (xs : List (Bytes × A))
    → get id (delete k xs) ≡ (if str_eq k id then none else get id xs)
unfolding get delete
get-delete k id [] = ground arith
get-delete k id ((x, a) ∷ xs) = elim (Bool-cases (str_eq x k)) [
  | inl e ↦
      rw (e, get-delete k id xs, (str_eq_iff x k).0 e)
        (gone_twice (str_eq k id) (get id xs) (some a))
  | inr e ↦
      rw (e, get-delete k id xs)
        (kept_once (str_eq x id) (str_eq k id) (some a) (get id xs) (not_both x k id e))
]

get-put :
    {A : Type 0} (k id : Bytes) (a : A) (xs : List (Bytes × A))
    → get id (put k a xs) ≡ (if str_eq k id then some a else get id xs)
unfolding get put
get-put k id a xs = rw (get-delete k id xs) (gone (str_eq k id))
  where
    gone :
        (test : Bool)
        → (if test then some a else (if test then none else get id xs))
          ≡ (if test then some a else get id xs)
    gone true = refl
    gone false = refl

-- A request more, or none.
abbrev pub asked : Option ℕ → List ℕ → List ℕ
asked none ts = ts
asked (some t) ts = t ∷ ts

-- The requests for one buffer while batches end; each comes with whether there is a connection.
unfoldable pub requests : Bytes → History → List (Bool × Batch) → List ℕ
requests k h [] = []
requests k h ((up, ev) ∷ evs) =
    let r = on_history_batch h up ev in
    let rest = requests k r.0 evs in
    if str_eq (catch_up_key ev.network ev.buffer) k then asked r.1 rest else rest

-- What may still be requested, by the state of the buffer's catch-up.
abbrev pub IsBounded : Option CatchUp → List ℕ → Type 0
IsBounded none ts = ts ≡ []
IsBounded (some ch) ts =
    ch.pages ≤ catch_up_max_pages → (length ts + ch.pages ≤ catch_up_max_pages) × Climbs ch.since ts

-- No request is always within the bounds.
nothing-IsBounded : (o : Option CatchUp) → IsBounded o []
nothing-IsBounded none = refl
nothing-IsBounded (some ch) = λ h. (omega (arith, h), tt)

-- What a batch of the buffer makes of its catch-up, and the request: the chain ends, or it goes on with
-- a page more and a later time.
Goes : Option CatchUp → Option ℕ → Option CatchUp → Type 0
Goes o q o' =
    ((q ≡ none) × (o' ≡ none))
    ⊎ ((ch : CatchUp) × (t : ℕ) × (o ≡ some ch)
        × (q ≡ some t)
        × (o' ≡ some (record { pages = suc ch.pages; since = t }))
        × (ch.pages < catch_up_max_pages)
        × (ch.since < t))

on_history_batch-Goes :
    (h : History) (up : Bool) (ev : Batch)
    → Goes
        (get (catch_up_key ev.network ev.buffer) h.catch_ups)
        (on_history_batch h up ev).1
        (get (catch_up_key ev.network ev.buffer) (on_history_batch h up ev).0.catch_ups)
unfolding on_history_batch Goes
on_history_batch-Goes h up ev =
    let key = catch_up_key ev.network ev.buffer in
    let P : History × Option ℕ → Type 0 =
      λ r. Goes (get key h.catch_ups) r.1 (get key r.0.catch_ups) in
    option_cases P (get key h.catch_ups) (λ absent. inl (refl, absent))
      (λ ch known.
        if_cases P
          (not up
            || (ltb ev.count catch_up_limit
                || (leb catch_up_max_pages ch.pages || not (ltb ch.since ev.time))))
          (λ _. inl (refl, rw (get-delete key key h.catch_ups, str_eq_refl key) refl))
          (λ more. inr (
            ch,
            ev.time,
            known,
            refl,
            rw
                (
                  get-put key key (record { pages = suc ch.pages; since = ev.time }) h.catch_ups,
                  str_eq_refl key,
                )
                refl,
            ground (arith, more),
            ground (arith, more),
          )))

-- A batch of another buffer leaves the catch-up alone.
elsewhere :
    (k : Bytes) (h : History) (up : Bool) (ev : Batch)
    → str_eq (catch_up_key ev.network ev.buffer) k ≡ false
    → get k (on_history_batch h up ev).0.catch_ups ≡ get k h.catch_ups
unfolding on_history_batch
elsewhere k h up ev other =
    let key = catch_up_key ev.network ev.buffer in
    let P : History × Option ℕ → Type 0 = λ r. get k r.0.catch_ups ≡ get k h.catch_ups in
    option_cases P (get key h.catch_ups) (λ _. refl)
      (λ ch known.
        if_cases P
          (not up
            || (ltb ev.count catch_up_limit
                || (leb catch_up_max_pages ch.pages || not (ltb ch.since ev.time))))
          (λ _. rw (get-delete key k h.catch_ups, other) refl)
          (λ more.
            rw (get-put key k (record { pages = suc ch.pages; since = ev.time }) h.catch_ups, other)
              refl))

Goes-IsBounded :
    (o : Option CatchUp) (q : Option ℕ) (o' : Option CatchUp) (rest : List ℕ)
    → Goes o q o'
    → IsBounded o' rest
    → IsBounded o (asked q rest)
unfolding Goes
Goes-IsBounded o q o' rest (inl (eq, eo)) b =
    let over : rest ≡ [] = subst (λ o. IsBounded o rest) eo b in rw (eq, over) (nothing-IsBounded o)
Goes-IsBounded o q o' rest (inr (ch, t, is, eq, eo, low, later)) b =
    let more : IsBounded (some (record { pages = suc ch.pages; since = t })) rest =
      subst (λ o. IsBounded o rest) eo b in
    subst (λ o. IsBounded o (asked q rest)) (sym is)
      (subst (λ q. IsBounded (some ch) (asked q rest)) (sym eq)
        (λ h.
          let (few, climbs) = more (omega (arith, low)) in (omega (arith, few), (later, climbs))))

requests-IsBounded :
    (k : Bytes) (h : History) (evs : List (Bool × Batch))
    → IsBounded (get k h.catch_ups) (requests k h evs)
unfolding requests
requests-IsBounded k h [] = nothing-IsBounded (get k h.catch_ups)
requests-IsBounded k h ((up, ev) ∷ evs) =
    let r = on_history_batch h up ev in
    let key = catch_up_key ev.network ev.buffer in
    let rest = requests-IsBounded k r.0 evs in
    if_cases (IsBounded (get k h.catch_ups)) (str_eq key k)
      (λ own.
        let same : key ≡ k = (str_eq_iff key k).0 own in
        Goes-IsBounded (get k h.catch_ups) r.1 (get k r.0.catch_ups) (requests k r.0 evs)
          (subst (λ k. Goes (get k h.catch_ups) r.1 (get k r.0.catch_ups)) same
            (on_history_batch-Goes h up ev))
          rest)
      (λ other. subst (λ o. IsBounded o (requests k r.0 evs)) (elsewhere k h up ev other) rest)

-- Once a catch-up of a buffer has started, and until it is started again, whatever batches end, of this
-- buffer and of others, with or without a connection, at most nine more pages are asked for, each from a
-- later time than the one before: the chain ends.
pub catch_up-IsBounded :
    (h : History) (src : Source) (network buffer : Bytes) (newest fallback since : ℕ)
    (evs : List (Bool × Batch))
    → (catch_up_buffer h src network buffer newest fallback).1 ≡ some since
    → (length (
          requests
            (catch_up_key network buffer)
            (catch_up_buffer h src network buffer newest fallback).0
            evs)
        ≤ 9)
      × Climbs since (
          requests
            (catch_up_key network buffer)
            (catch_up_buffer h src network buffer newest fallback).0
            evs)
unfolding catch_up_buffer
catch_up-IsBounded h src network buffer newest fallback since evs started =
    let key = catch_up_key network buffer in
    let P : History × Option ℕ → Type 0 = λ r.
      r.1 ≡ some since
      → (length (requests key r.0 evs) ≤ 9) × Climbs since (requests key r.0 evs) in
    let all : P (catch_up_buffer h src network buffer newest fallback) =
      if_cases P (not src.has_store || not src.has_history) (λ _ e. absurd (ground (arith, e)))
        (λ _.
          option_cases P src.last_chat_time (λ _ e. absurd (ground (arith, e)))
            (λ stored _.
              let base = baseline stored fallback in
              if_cases P (base == 0 || (not (newest == 0) && not (ltb base newest)))
                (λ _ e. absurd (ground (arith, e)))
                (λ _.
                  if_cases P (not src.same_conn) (λ _ e. absurd (ground (arith, e)))
                    (λ _ e.
                      let page : CatchUp = record { pages = 1; since = base } in
                      let h' = record h { catch_ups = put key page h.catch_ups } in
                      let at : get key h'.catch_ups ≡ some page =
                        rw (get-put key key page h.catch_ups, str_eq_refl key) refl in
                      let (few, climbs) =
                        subst (λ o. IsBounded o (requests key h' evs)) at
                          (requests-IsBounded key h' evs) (omega arith) in
                      let same : base ≡ since =
                        ap (λ (o : Option ℕ). elim o [ some t ↦ t | none ↦ 0 ]) e in
                      (
                        omega (arith, few),
                        subst (λ t. Climbs t (requests key h' evs)) same climbs,
                      ))))) in
    all started
