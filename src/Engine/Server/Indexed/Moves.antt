-- ===== src/Engine/Server/Indexed/Moves.antt =====
-- A session leaves the indexes, or is entered under a key and a handle.
use stugan.Base.{
  ℕ, ◌≤◌, ◌<◌, true, Option, none, some, Bytes, if◌then◌else◌, str_eq, str_eq_iff, str_eq_refl, ◌≡◌,
  ◌≢◌, refl, sym, ap, ◌∙◌, subst, arith, Bool-cases, inl, inr, ◌⊎◌,
}
use stugan.Engine.Buffer.{clear}
use stugan.Engine.Session.State.{Session}
use stugan.Engine.Session.Stream.{contains}
use stugan.Engine.Server.State.{Server, put, is_ptr, set_session, forget_locked}
use stugan.Engine.Server.Indexed.{
  IsIndexed, put_self, put_other, set_session-IsIndexed, forget_locked-sessions,
  forget_locked-by_handle,
}

abbrev pub without : Option ℕ → ℕ → Option ℕ
without o p = if is_ptr o p then none else o

without_lem : (o : Option ℕ) (p q : ℕ) → without o p ≡ some q → (o ≡ some q) × (p ≢ q)
without_lem none p q e = absurd (ground arith)
without_lem (some r) p q e = ground arith

without_other : (o : Option ℕ) (p q : ℕ) → o ≡ some q → p ≢ q → without o p ≡ some q
without_other o p q e ne = rw e (ground arith)

-- `p` has left both indexes.
left-IsIndexed :
    (s t : Server) (p : ℕ)
    → t.heap ≡ s.heap
    → t.next ≡ s.next
    → ((k : Bytes) → t.sessions k ≡ without (s.sessions k) p)
    → ((h : Bytes) → t.by_handle h ≡ without (s.by_handle h) p)
    → IsIndexed s
    → IsIndexed t
left-IsIndexed s t p same bound ks hs v = record {
  handle_of = λ h q e.
      let (was, other) = without_lem (s.by_handle h) p q (sym (hs h) ∙ e) in
      let (at, back) = v.handle_of h q was in
      rw same (at, ks (s.heap q).key ∙ without_other _ p q back other);
  key_of = λ k q e.
      let (was, other) = without_lem (s.sessions k) p q (sym (ks k) ∙ e) in
      let (at, back) = v.key_of k q was in
      rw same (at, hs (s.heap q).handle ∙ without_other _ p q back other);
  below = λ k q e. rw bound (v.below k q (without_lem (s.sessions k) p q (sym (ks k) ∙ e)).0);
  recent = λ k q e. rw same (v.recent k q (without_lem (s.sessions k) p q (sym (ks k) ∙ e)).0);
}

pub forget_locked-IsIndexed : (s : Server) (p : ℕ) → IsIndexed s → IsIndexed (forget_locked s p)
unfolding forget_locked set_session
forget_locked-IsIndexed s p v =
    let emptied : Session = record (s.heap p) { buf = (clear (s.heap p).buf).0 } in
    left-IsIndexed (set_session s p emptied) (forget_locked s p) p refl refl
      (λ k. forget_locked-sessions s p k v) (λ h. forget_locked-by_handle s p h v)
      (set_session-IsIndexed s p emptied refl refl refl v)

-- `p`, in no index or taken out of both, is entered under a key and a handle that are free.
pub record Placed (s t : Server) (p : ℕ) (sess : Session) : Type 0 where
  pub in_heap : t.heap ≡ put s.heap p sess
  pub more : s.next ≤ t.next
  pub known : p < t.next
  pub answers : contains sess.handles sess.handle ≡ true
  pub by_key :
      (k : Bytes) → t.sessions k ≡ (if str_eq sess.key k then some p else without (s.sessions k) p)
  pub by_claim :
      (h : Bytes)
      → t.by_handle h ≡ (if str_eq sess.handle h then some p else without (s.by_handle h) p)
  pub key_free : without (s.sessions sess.key) p ≡ none
  pub handle_free : without (s.by_handle sess.handle) p ≡ none

module _ (m t : Bytes → Option ℕ) (p : ℕ) (x : Bytes)
    (laws : (h : Bytes) → t h ≡ (if str_eq x h then some p else without (m h) p)) where
  entry-cases :
      (h : Bytes) (q : ℕ) → t h ≡ some q → ((p ≡ q) × (x ≡ h)) ⊎ ((m h ≡ some q) × (p ≢ q))
  entry-cases h q e = elim (Bool-cases (str_eq x h)) [
    | inl same ↦
        let at : some p ≡ some q = sym (laws h ∙ rw same refl) ∙ e in
        inl (ground (arith, at), (str_eq_iff x h).0 same)
    | inr other ↦ inr (without_lem (m h) p q (sym (laws h ∙ rw other refl) ∙ e))
  ]

  entry_new : t x ≡ some p
  entry_new = laws x ∙ rw (str_eq_refl x) refl

  entry_kept : (h : Bytes) (q : ℕ) → without (m x) p ≡ none → m h ≡ some q → p ≢ q → t h ≡ some q
  entry_kept h q free e ne = elim (Bool-cases (str_eq x h)) [
    | inl same ↦
        let held : without (m x) p ≡ some q =
          without_other (m x) p q (ap m ((str_eq_iff x h).0 same) ∙ e) ne in
        absurd (ground (arith, free, held))
    | inr other ↦ laws h ∙ (rw other (without_other (m h) p q e ne))
  ]

pub Placed-IsIndexed :
    (s t : Server) (p : ℕ) (sess : Session) → Placed s t p sess → IsIndexed s → IsIndexed t
Placed-IsIndexed s t p sess c v = record {
  handle_of = λ h q e. elim (entry-cases s.by_handle t.by_handle p sess.handle c.by_claim h q e) [
    | inl (here, at) ↦
        subst (λ j. ((t.heap j).handle ≡ h) × (t.sessions (t.heap j).key ≡ some j)) here
          (rw (c.in_heap, put_self s.heap p sess)
            (at, entry_new s.sessions t.sessions p sess.key c.by_key))
    | inr (was, other) ↦
        let (at, back) = v.handle_of h q was in
        rw (c.in_heap, put_other s.heap p sess q other)
          (
            at,
            entry_kept s.sessions t.sessions p sess.key c.by_key (s.heap q).key q c.key_free back
                other,
          )
  ];
  key_of = λ k q e. elim (entry-cases s.sessions t.sessions p sess.key c.by_key k q e) [
    | inl (here, at) ↦
        subst (λ j. ((t.heap j).key ≡ k) × (t.by_handle (t.heap j).handle ≡ some j)) here
          (rw (c.in_heap, put_self s.heap p sess)
            (at, entry_new s.by_handle t.by_handle p sess.handle c.by_claim))
    | inr (was, other) ↦
        let (at, back) = v.key_of k q was in
        rw (c.in_heap, put_other s.heap p sess q other)
          (
            at,
            entry_kept s.by_handle t.by_handle p sess.handle c.by_claim (s.heap q).handle q
                c.handle_free back other,
          )
  ];
  below = λ k q e. elim (entry-cases s.sessions t.sessions p sess.key c.by_key k q e) [
    | inl (here, at) ↦ omega (arith, here, c.known)
    | inr (was, other) ↦ omega (arith, c.more, v.below k q was)
  ];
  recent = λ k q e. elim (entry-cases s.sessions t.sessions p sess.key c.by_key k q e) [
    | inl (here, at) ↦
        subst (λ j. contains (t.heap j).handles (t.heap j).handle ≡ true) here
          (rw (c.in_heap, put_self s.heap p sess) c.answers)
    | inr (was, other) ↦ rw (c.in_heap, put_other s.heap p sess q other) (v.recent k q was)
  ];
}
