-- ===== src/Engine/Server/Indexed/Renewing.antt =====
-- A session that is changed in place keeps its names; `handleConnect` on a session that is known.
use stugan.Base.{
  ℕ, Bool, none, some, List, [], ◌∷◌, Bytes, ◌≡◌, refl, ◌∙◌, arith, Option-cases, codes, inl, inr,
  if_cases,
}
use stugan.EngineProto.{Frame}
use stugan.Engine.Session.State.{Session, Effect, end_session, shutdown, enqueue_write}
use stugan.Engine.Session.Stream.{Held, ack}
use stugan.Engine.Session.Attach.{reusable, detach_locked}
use stugan.Engine.Server.State.{Server, send, set_session, forget_locked}
use stugan.Engine.Server.Handlers.{
  replace, connect_known, closing, overflows, outranked, evict, fail, detached_from_holder,
}
use stugan.Engine.Server.Indexed.{
  IsIndexed, SameIndex, SameIndex-IsIndexed, set_session-IsIndexed, send-SameIndex, task-SameIndex,
  forget_locked-sessions, forget_locked-by_handle,
}
use stugan.Engine.Server.Indexed.Moves.{forget_locked-IsIndexed}
use stugan.Engine.Server.Indexed.Entering.{
  evict-SameIndex, dial_fresh-IsIndexed, re_attach-IsIndexed,
}

pub record SameNames (s t : Session) : Type 0 where
  pub same_key : t.key ≡ s.key
  pub same_handle : t.handle ≡ s.handle
  pub same_recent : t.handles ≡ s.handles

pub detach_locked-SameNames : (s : Session) (l now : ℕ) → SameNames s (detach_locked s l now).0
unfolding detach_locked
detach_locked-SameNames s l now = ground arith

pub shutdown-SameNames : (s : Session) (reason : Bytes) → SameNames s (shutdown s reason).0
unfolding shutdown
shutdown-SameNames s reason = ground arith

pub enqueue_write-SameNames :
    (pick : Bool) (s : Session) (line : Bytes) → SameNames s (enqueue_write pick s line).0
unfolding enqueue_write
enqueue_write-SameNames pick s line = ground arith

pub ack-SameNames : (h : Held) (handle : Bytes) (seq : ℕ) → SameNames h.sess (ack h handle seq).sess
unfolding ack
ack-SameNames h handle seq = ground arith

detached_from_holder-SameNames : (s : Session) (now : ℕ) → SameNames s (detached_from_holder s now)
unfolding detached_from_holder
detached_from_holder-SameNames s now = elim (Option-cases s.link) [
  | inl e ↦
      rw (e, detached_from_holder)
        (record { same_key = refl; same_handle = refl; same_recent = refl })
  | inr (holder, e) ↦
      (let n = detach_locked-SameNames s holder now in
        rw (e, detached_from_holder)
          record {
            same_key = n.same_key;
            same_handle = n.same_handle;
            same_recent = n.same_recent;
          })
]

pub SameNames-trans : {s t u : Session} → SameNames s t → SameNames t u → SameNames s u
SameNames-trans a b = record {
  same_key = b.same_key ∙ a.same_key;
  same_handle = b.same_handle ∙ a.same_handle;
  same_recent = b.same_recent ∙ a.same_recent;
}

pub renewed-IsIndexed :
    (s : Server) (p : ℕ) (sess : Session)
    → SameNames (s.heap p) sess
    → IsIndexed s
    → IsIndexed (set_session s p sess)
renewed-IsIndexed s p sess n v =
    set_session-IsIndexed s p sess n.same_key n.same_handle n.same_recent v

same : (s : Server) → SameIndex s s
same s = record { same_heap = refl; same_next = refl; same_sessions = refl; same_handles = refl }

pub closing-SameIndex : (s : Server) (p : ℕ) (es : List Effect) → SameIndex s (closing s p es)
unfolding closing
closing-SameIndex s p [] = same s
closing-SameIndex s p (e ∷ es) = task-SameIndex s _

pub overflows-SameIndex : (s : Server) (p : ℕ) (es : List Effect) → SameIndex s (overflows s p es)
unfolding overflows
overflows-SameIndex s p [] = same s
overflows-SameIndex s p (end_session reason ∷ es) = task-SameIndex s _
overflows-SameIndex s p (_ ∷ es) = same s

-- `replace` up to the forgetting.
abbrev halted : Server → ℕ → ℕ → Server
halted s p now =
    let why = codes "replaced by a new connection" in
    let u = evict s p why in
    let r = shutdown (detached_from_holder (u.heap p) now) why in
    closing (set_session u p r.0) p r.3

halted-IsIndexed : (s : Server) (p now : ℕ) → IsIndexed s → IsIndexed (halted s p now)
halted-IsIndexed s p now v =
    let why = codes "replaced by a new connection" in
    let u = evict s p why in
    let d = detached_from_holder (u.heap p) now in
    let names =
      SameNames-trans (detached_from_holder-SameNames (u.heap p) now) (shutdown-SameNames d why) in
    SameIndex-IsIndexed (closing-SameIndex _ p _) (
      renewed-IsIndexed u p (shutdown d why).0 names
        (SameIndex-IsIndexed (evict-SameIndex s p why) v))

halted_maps :
    (s : Server) (p now : ℕ)
    → ((halted s p now).sessions ≡ s.sessions) × ((halted s p now).by_handle ≡ s.by_handle)
unfolding set_session
halted_maps s p now =
    let k = evict-SameIndex s p (codes "replaced by a new connection") in
    let c =
      closing-SameIndex (set_session (evict s p (codes "replaced by a new connection")) p _) p _ in
    (c.same_sessions ∙ k.same_sessions, c.same_handles ∙ k.same_handles)

pub connect_known-IsIndexed :
    (s : Server) (l : ℕ) (f : Frame) (key : Bytes) (p now : ℕ)
    → s.by_handle f.handle ≡ none
    → s.sessions key ≡ some p
    → IsIndexed s
    → IsIndexed (connect_known s l f key p now)
unfolding connect_known replace fail send
connect_known-IsIndexed s l f key p now no_handle held v =
    if_cases IsIndexed (outranked s (s.heap p).link l)
      (λ _. SameIndex-IsIndexed (send-SameIndex s l _) v)
      (λ _.
        if_cases IsIndexed (reusable (s.heap p) f.fingerprint)
          (λ _. re_attach-IsIndexed s l f p now key no_handle held v)
          (λ _.
            let w = halted s p now in
            let vw = halted-IsIndexed s p now v in
            let maps = halted_maps s p now in
            let at : w.sessions key ≡ some p = rw (maps.0) held in
            let off : w.by_handle f.handle ≡ none = rw (maps.1) no_handle in
            dial_fresh-IsIndexed (forget_locked w p) l f key now
              (forget_locked-sessions w p key vw ∙ rw at (ground arith))
              (forget_locked-by_handle w p f.handle vw ∙ rw off refl)
              (forget_locked-IsIndexed w p vw)))
