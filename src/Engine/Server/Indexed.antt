-- ===== src/Engine/Server/Indexed.antt =====
-- The two indexes of the registry agree: every session is found under its key and under its
-- current handle, and under nothing else.
pub mod Moves
pub mod Renewing
pub mod Frames
pub mod Superseded
pub mod Entering
use stugan.Base.{
  ℕ, suc, ◌+◌, ◌≤◌, ◌<◌, Bool, true, false, not, ◌&&◌, ◌||◌, Option, none, some, List, [], ◌∷◌,
  ◌++◌, Bytes, ◌==◌, ==→eq, if◌then◌else◌, str_eq, str_eq_iff, str_eq_refl, ◌≡◌, ◌≢◌, refl, sym, ap,
  ap₂, ◌∙◌, subst, arith, Bool-cases, inl, inr, ◌⊎◌, if_cases,
}
use stugan.EngineProto.{Frame}
use stugan.Engine.Session.State.{Session}
use stugan.Engine.Session.Stream.{contains}
use stugan.Engine.Server.State.{
  Server, Link, Task, put, put_str, is_ptr, task, set_session, send, add_session, remove_session,
  delete_if, unindex, forget_locked,
}

pub record IsIndexed (s : Server) : Type 0 where
  pub handle_of :
      (h : Bytes) (p : ℕ)
      → s.by_handle h ≡ some p
      → ((s.heap p).handle ≡ h) × (s.sessions (s.heap p).key ≡ some p)
  pub key_of :
      (k : Bytes) (p : ℕ)
      → s.sessions k ≡ some p
      → ((s.heap p).key ≡ k) × (s.by_handle (s.heap p).handle ≡ some p)
  pub below : (k : Bytes) (p : ℕ) → s.sessions k ≡ some p → p < s.next
  -- the current handle is among those that a session is forgotten under
  pub recent :
      (k : Bytes) (p : ℕ)
      → s.sessions k ≡ some p
      → contains (s.heap p).handles (s.heap p).handle ≡ true

-- What the indexes depend on.
pub record SameIndex (s t : Server) : Type 0 where
  pub same_heap : t.heap ≡ s.heap
  pub same_next : t.next ≡ s.next
  pub same_sessions : t.sessions ≡ s.sessions
  pub same_handles : t.by_handle ≡ s.by_handle

pub SameIndex-IsIndexed : {s t : Server} → SameIndex s t → IsIndexed s → IsIndexed t
SameIndex-IsIndexed {s} {t} k v = record {
  handle_of = rw (k.same_heap, k.same_handles, k.same_sessions) (v.handle_of);
  key_of = rw (k.same_heap, k.same_handles, k.same_sessions) (v.key_of);
  below = rw (k.same_next, k.same_sessions) (v.below);
  recent = rw (k.same_heap, k.same_sessions) (v.recent);
}

pub send-SameIndex : (s : Server) (l : ℕ) (f : Frame) → SameIndex s (send s l f)
unfolding send
send-SameIndex s l f = record {
  same_heap = refl;
  same_next = refl;
  same_sessions = refl;
  same_handles = refl;
}

pub add_session-SameIndex : (s : Server) (l p : ℕ) → SameIndex s (add_session s l p)
unfolding add_session
add_session-SameIndex s l p = record {
  same_heap = refl;
  same_next = refl;
  same_sessions = refl;
  same_handles = refl;
}

pub remove_session-SameIndex : (s : Server) (l p : ℕ) → SameIndex s (remove_session s l p)
unfolding remove_session
remove_session-SameIndex s l p = record {
  same_heap = refl;
  same_next = refl;
  same_sessions = refl;
  same_handles = refl;
}

pub task-SameIndex : (s : Server) (t : Task) → SameIndex s (task s t)
unfolding task
task-SameIndex s t = record {
  same_heap = refl;
  same_next = refl;
  same_sessions = refl;
  same_handles = refl;
}

pub SameIndex-trans : {s t u : Server} → SameIndex s t → SameIndex t u → SameIndex s u
SameIndex-trans a b = record {
  same_heap = b.same_heap ∙ a.same_heap;
  same_next = b.same_next ∙ a.same_next;
  same_sessions = b.same_sessions ∙ a.same_sessions;
  same_handles = b.same_handles ∙ a.same_handles;
}

pub put_self {ℓ} : {A : Type ℓ} (m : ℕ → A) (p : ℕ) (v : A) → put m p v p ≡ v
put_self m p v = ground arith

pub put_other {ℓ} : {A : Type ℓ} (m : ℕ → A) (p : ℕ) (v : A) (q : ℕ) → p ≢ q → put m p v q ≡ m q
put_other m p v q ne = ground arith

-- A write to a session that keeps its key and its handles.
pub set_session-IsIndexed :
    (s : Server) (p : ℕ) (sess : Session)
    → sess.key ≡ (s.heap p).key
    → sess.handle ≡ (s.heap p).handle
    → sess.handles ≡ (s.heap p).handles
    → IsIndexed s
    → IsIndexed (set_session s p sess)
unfolding set_session
set_session-IsIndexed s p sess k h hs v =
    let key_at = λ (q : ℕ).
      if_cases (λ (x : Session). x.key ≡ (s.heap q).key) (p == q)
        (λ e. k ∙ ap (λ j. (s.heap j).key) (==→eq p q e)) (λ _. refl) in
    let handle_at = λ (q : ℕ).
      if_cases (λ (x : Session). x.handle ≡ (s.heap q).handle) (p == q)
        (λ e. h ∙ ap (λ j. (s.heap j).handle) (==→eq p q e)) (λ _. refl) in
    let handles_at = λ (q : ℕ).
      if_cases (λ (x : Session). x.handles ≡ (s.heap q).handles) (p == q)
        (λ e. hs ∙ ap (λ j. (s.heap j).handles) (==→eq p q e)) (λ _. refl) in
    record {
      handle_of = λ x q e.
          (handle_at q ∙ (v.handle_of x q e).0, ap s.sessions (key_at q) ∙ (v.handle_of x q e).1);
      key_of = λ x q e.
          (key_at q ∙ (v.key_of x q e).0, ap s.by_handle (handle_at q) ∙ (v.key_of x q e).1);
      below = v.below;
      recent = λ x q e. ap₂ contains (handles_at q) (handle_at q) ∙ v.recent x q e;
    }

pub delete_if_lem :
    (m : Bytes → Option ℕ) (x : Bytes) (p : ℕ) (h : Bytes)
    → delete_if m x p h ≡ (if str_eq x h && is_ptr (m h) p then none else m h)
delete_if_lem m x p h = elim (Bool-cases (str_eq x h)) [
  | inl same ↦
      let at : m x ≡ m h = ap m ((str_eq_iff x h).0 same) in
      rw (same, at)
        (if_cases (λ (g : Bytes → Option ℕ). g h ≡ (if is_ptr (m h) p then none else m h))
          (is_ptr (m h) p) (λ e. rw (e, same) refl) (λ e. rw e refl))
  | inr other ↦ rw other (
      if_cases (λ (g : Bytes → Option ℕ). g h ≡ m h) (is_ptr (m x) p) (λ e. rw other refl)
        (λ e. refl))
]

unindex_lem :
    (p : ℕ) (hs : List Bytes) (m : Bytes → Option ℕ) (h : Bytes)
    → unindex p hs m h ≡ (if contains hs h && is_ptr (m h) p then none else m h)
unfolding unindex contains
unindex_lem p [] m h = refl
unindex_lem p (x ∷ hs) m h =
    rw (unindex_lem p hs (delete_if m x p) h, delete_if_lem m x p h)
      (elim (Bool-cases (str_eq x h)) [
        | inl same ↦ elim (Bool-cases (is_ptr (m h) p)) [
          | inl e ↦ rw (same, e) (ground arith)
          | inr e ↦ rw (same, e) (ground arith)
        ]
        | inr other ↦ rw other refl
      ])

pub is_ptr_lem : (o : Option ℕ) (p : ℕ) → is_ptr o p ≡ true → o ≡ some p
is_ptr_lem none p e = absurd (ground arith)
is_ptr_lem (some q) p e = ap some (==→eq q p e)

-- What `forgetLocked` leaves in the index by key: an entry for `p` is gone.
pub forget_locked-sessions :
    (s : Server) (p : ℕ) (k : Bytes)
    → IsIndexed s
    → (forget_locked s p).sessions k ≡ (if is_ptr (s.sessions k) p then none else s.sessions k)
unfolding forget_locked
forget_locked-sessions s p k v =
    rw (delete_if_lem s.sessions (s.heap p).key p k) (elim (Bool-cases (is_ptr (s.sessions k) p)) [
      | inl e ↦
          rw (e, (str_eq_iff (s.heap p).key k).1 (v.key_of k p (is_ptr_lem (s.sessions k) p e)).0)
            refl
      | inr e ↦ rw e (ground arith)
    ])

pub forget_locked-by_handle :
    (s : Server) (p : ℕ) (h : Bytes)
    → IsIndexed s
    → (forget_locked s p).by_handle h ≡ (if is_ptr (s.by_handle h) p then none else s.by_handle h)
unfolding forget_locked
forget_locked-by_handle s p h v =
    rw (unindex_lem p (s.heap p).handles s.by_handle h)
      (elim (Bool-cases (is_ptr (s.by_handle h) p)) [
        | inl e ↦
            let (at, back) = v.handle_of h p (is_ptr_lem (s.by_handle h) p e) in
            let held : contains (s.heap p).handles h ≡ true =
              ap (contains (s.heap p).handles) (sym at) ∙ v.recent (s.heap p).key p back in
            rw (e, held) refl
        | inr e ↦ rw e (ground arith)
      ])
