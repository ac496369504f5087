-- ===== src/Engine/Server/Indexed/Entering.antt =====
-- `handleConnect` enters a session under a free handle.
use stugan.Base.{
  ℕ, zero, suc, ◌-◌, ◌≤◌, true, Option, none, some, List, [], ◌∷◌, ◌++◌, Bytes, if◌then◌else◌,
  str_eq, str_eq_iff, str_eq_refl, ◌≡◌, ◌≢◌, refl, sym, ap, ◌∙◌, arith, Bool-cases, Option-cases,
  codes, inl, inr, if_cases, length, length-append, drop, ltb,
}
use stugan.EngineProto.{Frame}
use stugan.Engine.Session.State.{Session, new_session, recent_handles}
use stugan.Engine.Session.Stream.{contains}
use stugan.Engine.Session.Attach.{attach_locked, remember}
use stugan.Engine.Server.State.{Server, put_str, is_ptr, remove_session, delete_if}
use stugan.Engine.Server.Handlers.{dial_fresh, re_attach, evict, lose}
use stugan.Engine.Server.Indexed.{
  IsIndexed, SameIndex, SameIndex-IsIndexed, SameIndex-trans, is_ptr_lem, delete_if_lem,
  send-SameIndex, remove_session-SameIndex, add_session-SameIndex, task-SameIndex,
}
use stugan.Engine.Server.Indexed.Moves.{without, Placed-IsIndexed}

contains_last :
    (n : ℕ) (hs : List Bytes) (h : Bytes)
    → n ≤ length hs
    → contains (drop n (hs ++ h ∷ [])) h ≡ true
unfolding contains
contains_last zero [] h few = ground (arith, str_eq_refl h)
contains_last zero (x ∷ hs) h few = ground (arith, contains_last zero hs h (omega arith))
contains_last (suc n) [] h few = absurd (omega arith)
contains_last (suc n) (x ∷ hs) h few = contains_last n hs h (omega arith)

contains-remember : (hs : List Bytes) (h : Bytes) → contains (remember hs h) h ≡ true
unfolding remember
contains-remember hs h =
    let len = length-append hs (h ∷ []) in
    if_cases (λ kept. contains kept h ≡ true) (ltb recent_handles (length (hs ++ h ∷ [])))
      (λ e. contains_last (length (hs ++ h ∷ []) - recent_handles) hs h (omega (arith, len)))
      (λ _. contains_last 0 hs h (omega arith))

pub evict-SameIndex : (s : Server) (p : ℕ) (why : Bytes) → SameIndex s (evict s p why)
unfolding evict lose
evict-SameIndex s p why = elim (Option-cases (s.heap p).link) [
  | inl e ↦
      rw (e, evict)
        record { same_heap = refl; same_next = refl; same_sessions = refl; same_handles = refl }
  | inr (holder, e) ↦
      rw (e, evict)
        (SameIndex-trans (remove_session-SameIndex s holder p)
          (send-SameIndex (remove_session s holder p) holder _))
]

-- `p` is in neither index.
out_of :
    (m : Bytes → Option ℕ) (p : ℕ)
    → ((k : Bytes) → m k ≢ some p)
    → (k : Bytes) → without (m k) p ≡ m k
out_of m p off k =
    if_cases (λ o. o ≡ m k) (is_ptr (m k) p) (λ e. absurd (off k (is_ptr_lem (m k) p e)))
      (λ _. refl)

pub dial_fresh-IsIndexed :
    (s : Server) (l : ℕ) (f : Frame) (key : Bytes) (now : ℕ)
    → s.sessions key ≡ none
    → s.by_handle f.handle ≡ none
    → IsIndexed s
    → IsIndexed (dial_fresh s l f key now)
unfolding dial_fresh new_session contains
dial_fresh-IsIndexed s l f key now no_key no_handle v =
    let p = s.next in
    let off_keys : (k : Bytes) → s.sessions k ≢ some p = λ k e. omega (arith, v.below k p e) in
    let off_handles : (h : Bytes) → s.by_handle h ≢ some p =
      λ h e. off_keys _ (v.handle_of h p e).1 in
    SameIndex-IsIndexed (SameIndex-trans (add_session-SameIndex _ l p) (task-SameIndex _ _)) (
      Placed-IsIndexed s _ p (new_session l (s.links l).instance_id f key now)
        record {
          in_heap = refl;
          more = omega arith;
          known = omega arith;
          answers = ground (arith, str_eq_refl f.handle);
          by_key = λ k. rw (out_of s.sessions p off_keys k) refl;
          by_claim = λ h. rw (out_of s.by_handle p off_handles h) refl;
          key_free = rw no_key refl;
          handle_free = rw no_handle refl;
        }
        v)

-- The claim of a session that the registry holds under `key`.
module _ (s : Server) (l : ℕ) (f : Frame) (p now : ℕ) (key : Bytes)
    (no_handle : s.by_handle f.handle ≡ none) (held : s.sessions key ≡ some p)
    (v : IsIndexed s) where
  abbrev pub claims : Bytes → Option ℕ
  claims = put_str (delete_if s.by_handle (s.heap p).handle p) f.handle (some p)

  re_attach-by_key :
      (k : Bytes)
      → s.sessions k ≡ (if str_eq (s.heap p).key k then some p else without (s.sessions k) p)
  re_attach-by_key k =
      let (at, back) = v.key_of key p held in
      elim (Bool-cases (is_ptr (s.sessions k) p)) [
        | inl e ↦
            let here = is_ptr_lem (s.sessions k) p e in
            rw (here, (str_eq_iff (s.heap p).key k).1 (v.key_of k p here).0) refl
        | inr e ↦ elim (Bool-cases (str_eq (s.heap p).key k)) [
          | inl same ↦
              rw same (ap s.sessions (sym ((str_eq_iff (s.heap p).key k).0 same) ∙ at) ∙ held)
          | inr other ↦ rw (other, e) refl
        ]
      ]

  pub re_attach-by_claim :
      (h : Bytes) → claims h ≡ (if str_eq f.handle h then some p else without (s.by_handle h) p)
  re_attach-by_claim h =
      rw (delete_if_lem s.by_handle (s.heap p).handle p h)
        (elim (Bool-cases (is_ptr (s.by_handle h) p)) [
          | inl e ↦
              let (at, back) = v.handle_of h p (is_ptr_lem (s.by_handle h) p e) in
              rw (e, (str_eq_iff (s.heap p).handle h).1 at) refl
          | inr e ↦ rw e (ground arith)
        ])

attach_locked-answers :
    (s : Session) (l : ℕ) (handle : Bytes) (now : ℕ)
    → contains (attach_locked s l handle now).handles (attach_locked s l handle now).handle ≡ true
unfolding attach_locked
attach_locked-answers s l handle now = contains-remember s.handles handle

pub re_attach-IsIndexed :
    (s : Server) (l : ℕ) (f : Frame) (p now : ℕ) (key : Bytes)
    → s.by_handle f.handle ≡ none
    → s.sessions key ≡ some p
    → IsIndexed s
    → IsIndexed (re_attach s l f p now)
unfolding re_attach attach_locked
re_attach-IsIndexed s l f p now key no_handle held v =
    let why = codes "taken over by a newer connect" in
    let u = evict s p why in
    let k = evict-SameIndex s p why in
    let v' = SameIndex-IsIndexed k v in
    let no_handle' : u.by_handle f.handle ≡ none = rw (k.same_handles) no_handle in
    let held' : u.sessions key ≡ some p = rw (k.same_sessions) held in
    SameIndex-IsIndexed (SameIndex-trans (add_session-SameIndex _ l p) (task-SameIndex _ _)) (
      Placed-IsIndexed u _ p (attach_locked (u.heap p) l f.handle now)
        record {
          in_heap = refl;
          more = omega arith;
          known = v'.below key p held';
          answers = attach_locked-answers (u.heap p) l f.handle now;
          by_key = re_attach-by_key u l f p now key no_handle' held' v';
          by_claim = re_attach-by_claim u l f p now key no_handle' held' v';
          key_free = rw ((v'.key_of key p held').0, held') (ground arith);
          handle_free = rw no_handle' refl;
        }
        v')
