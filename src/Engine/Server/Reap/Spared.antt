-- ===== src/Engine/Server/Reap/Spared.antt =====
-- Reaping keeps the registry in order and spares what a process holds.
use stugan.Base.{
  ℕ, Option, none, some, List, [], ◌∷◌, Bytes, ◌≡◌, ◌≢◌, refl, ap, ◌∙◌, arith, All, Option-cases,
  if_cases, inl, inr,
}
use stugan.Engine.Session.State.{Effect, shutdown}
use stugan.Engine.Server.State.{Server, set_session, forget_locked, task, wake}
use stugan.Engine.Server.Handlers.{closing}
use stugan.Engine.Server.Indexed.{IsIndexed, SameIndex-IsIndexed, task-SameIndex, put_other}
use stugan.Engine.Server.Indexed.Moves.{forget_locked-IsIndexed}
use stugan.Engine.Server.Indexed.Renewing.{shutdown-SameNames, renewed-IsIndexed, closing-SameIndex}
use stugan.Engine.Server.Reap.{released, end_of, verdict, victims, end_all, reap}

released-IsIndexed :
    (s : Server) (p : ℕ) (told : Option ℕ) → IsIndexed s → IsIndexed (released s p told)
unfolding released
released-IsIndexed s p none v = forget_locked-IsIndexed s p v
released-IsIndexed s p (some l) v = SameIndex-IsIndexed (task-SameIndex s (wake l)) v

end_of-IsIndexed :
    (s : Server) (p : ℕ) (reason : Bytes) → IsIndexed s → IsIndexed (end_of s p reason)
unfolding end_of
end_of-IsIndexed s p reason v =
    let r = shutdown (s.heap p) reason in
    if_cases IsIndexed r.2
      (λ _. released-IsIndexed _ p r.1 (
        SameIndex-IsIndexed (closing-SameIndex (set_session s p r.0) p r.3)
          (renewed-IsIndexed s p r.0 (shutdown-SameNames (s.heap p) reason) v)))
      (λ _. v)

end_all-IsIndexed : (s : Server) (vs : List (ℕ × Bytes)) → IsIndexed s → IsIndexed (end_all s vs)
unfolding end_all
end_all-IsIndexed s [] v = v
end_all-IsIndexed s ((p, reason) ∷ vs) v =
    end_all-IsIndexed (end_of s p reason) vs (end_of-IsIndexed s p reason v)

closing-heap : (s : Server) (p : ℕ) (es : List Effect) → (closing s p es).heap ≡ s.heap
unfolding closing task
closing-heap s p [] = refl
closing-heap s p (e ∷ es) = refl

released-heap :
    (s : Server) (p q : ℕ) (told : Option ℕ) → p ≢ q → (released s p told).heap q ≡ s.heap q
unfolding released forget_locked task
released-heap s p q none ne = put_other s.heap p _ q ne
released-heap s p q (some l) ne = refl

end_of-heap :
    (s : Server) (p q : ℕ) (reason : Bytes) → p ≢ q → (end_of s p reason).heap q ≡ s.heap q
unfolding end_of set_session
end_of-heap s p q reason ne =
    let r = shutdown (s.heap p) reason in
    if_cases (λ (t : Server). t.heap q ≡ s.heap q) r.2
      (λ _.
        released-heap (closing (set_session s p r.0) p r.3) p q r.1 ne
        ∙ (ap (λ h. h q) (closing-heap (set_session s p r.0) p r.3) ∙ put_other s.heap p r.0 q ne))
      (λ _. refl)

end_all-heap :
    (s : Server) (vs : List (ℕ × Bytes)) (q : ℕ)
    → All (λ v. v.0 ≢ q) vs
    → (end_all s vs).heap q ≡ s.heap q
unfolding end_all
end_all-heap s [] q h = refl
end_all-heap s ((p, reason) ∷ vs) q (h, hs) =
    end_all-heap (end_of s p reason) vs q hs ∙ end_of-heap s p q reason h

module _ (spell : ℕ → Bytes) (orphan_timeout : ℕ) (s : Server) (now : ℕ) (q l : ℕ)
    (held : (s.heap q).link ≡ some l) where
  held-verdict : verdict spell orphan_timeout (s.heap q) now ≡ none
  unfolding verdict
  held-verdict = rw (held, verdict) refl

  spared : (keys : List Bytes) → All (λ v. v.0 ≢ q) (victims spell orphan_timeout s now keys)
  unfolding victims
  spared [] = tt
  spared (key ∷ keys) = elim (Option-cases (s.sessions key)) [
    | inl e ↦ rw (e, victims) (spared keys)
    | inr (p, e) ↦ elim (Option-cases (verdict spell orphan_timeout (s.heap p) now)) [
      | inl f ↦ rw (e, victims) (rw f (spared keys))
      | inr (reason, f) ↦
          rw (e, victims)
            (rw f (
              λ same. absurd (
                  ground (
                    arith,
                    ap (λ j. verdict spell orphan_timeout (s.heap j) now) same,
                    held-verdict,
                    f,
                  )),
              spared keys,
            ))
    ]
  ]

-- Reaping keeps the two indexes of the registry in agreement, and leaves a session that a process
-- holds exactly as it was, whatever the order in which the map gives its keys.
pub reap-spares :
    (spell : ℕ → Bytes) (orphan_timeout : ℕ) (s : Server) (now : ℕ) (keys : List Bytes)
    → IsIndexed s
    → (q l : ℕ) → (s.heap q).link ≡ some l
    → IsIndexed (reap spell orphan_timeout s now keys)
      × ((reap spell orphan_timeout s now keys).heap q ≡ s.heap q)
unfolding reap
reap-spares spell orphan_timeout s now keys v q l held = (
  end_all-IsIndexed s (victims spell orphan_timeout s now keys) v,
  end_all-heap s (victims spell orphan_timeout s now keys) q
      (spared spell orphan_timeout s now q l held keys),
)
