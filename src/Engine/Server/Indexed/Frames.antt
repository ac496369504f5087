-- ===== src/Engine/Server/Indexed/Frames.antt =====
-- Every frame that the application may send keeps the two indexes in agreement.
use stugan.Base.{
  ℕ, Bool, true, ◌&&◌, ◌||◌, Option, Bytes, str_eq, refl, Option-cases, codes, inl, inr, if_cases,
}
use stugan.EngineProto.Op
use stugan.EngineProto.{Frame, text}
use stugan.Engine.Session.State.{Session, is_closed, is_open, held_by, enqueue_write}
use stugan.Engine.Session.Attach.{detach_locked}
use stugan.Engine.Server.State.{Server, send, session_key, set_session, remove_session}
use stugan.Engine.Server.Handlers.{
  is_empty, unsendable, write_known, handle_connect, handle_write, handle_detach, handle_close,
  handle_ack, handle_frame, fail, detach_known, close_known, ack_known,
}
use stugan.Engine.Server.Indexed.{
  IsIndexed, SameIndex-IsIndexed, send-SameIndex, remove_session-SameIndex,
}
use stugan.Engine.Server.Indexed.Moves.{forget_locked-IsIndexed}
use stugan.Engine.Server.Indexed.Entering.{dial_fresh-IsIndexed}
use stugan.Engine.Server.Indexed.Renewing.{
  enqueue_write-SameNames, ack-SameNames, detach_locked-SameNames, shutdown-SameNames,
  SameNames-trans, renewed-IsIndexed, closing-SameIndex, overflows-SameIndex,
  connect_known-IsIndexed,
}

failed-IsIndexed :
    (s : Server) (l : ℕ) (f : Frame) (why : Bytes) → IsIndexed s → IsIndexed (fail s l f why)
unfolding fail
failed-IsIndexed s l f why v = SameIndex-IsIndexed (send-SameIndex s l _) v

handle_connect-IsIndexed :
    (addr_error : Bytes → Option Bytes) (s : Server) (l : ℕ) (f : Frame) (now : ℕ)
    → IsIndexed s
    → IsIndexed (handle_connect addr_error s l f now)
unfolding handle_connect
handle_connect-IsIndexed addr_error s l f now v =
    let key = session_key (s.links l).instance_id f.id in
    if_cases IsIndexed (is_empty f.id || (is_empty f.handle || is_empty f.addr))
      (λ _. failed-IsIndexed s l f _ v)
      (λ _. elim (Option-cases (addr_error f.addr)) [
        | inr (err, e) ↦ rw e (failed-IsIndexed s l f _ v)
        | inl fine ↦ rw fine (
            if_cases IsIndexed s.closed (λ _. failed-IsIndexed s l f _ v)
              (λ _. elim (Option-cases (s.by_handle f.handle)) [
                | inr (q, e) ↦ rw e (failed-IsIndexed s l f _ v)
                | inl no_handle ↦ rw no_handle (elim (Option-cases (s.sessions key)) [
                  | inr (p, e) ↦ rw e (connect_known-IsIndexed s l f key p now no_handle e v)
                  | inl no_key ↦ rw no_key (dial_fresh-IsIndexed s l f key now no_key no_handle v)
                ])
              ]))
      ])

write_known-IsIndexed :
    (pick : Bool) (s : Server) (l : ℕ) (f : Frame) (p : ℕ)
    → IsIndexed s
    → IsIndexed (write_known pick s l f p)
unfolding write_known
write_known-IsIndexed pick s l f p v =
    let r = enqueue_write pick (s.heap p) (text f) in
    if_cases IsIndexed
      (str_eq (s.heap p).handle f.handle && (held_by (s.heap p) l && is_open (s.heap p).state))
      (λ _.
        SameIndex-IsIndexed (overflows-SameIndex (set_session s p r.0) p r.1)
          (renewed-IsIndexed s p r.0 (enqueue_write-SameNames pick (s.heap p) (text f)) v))
      (λ _. v)

handle_write-IsIndexed :
    (pick : Bool) (s : Server) (l : ℕ) (f : Frame)
    → IsIndexed s
    → IsIndexed (handle_write pick s l f)
unfolding handle_write
handle_write-IsIndexed pick s l f v =
    if_cases IsIndexed (unsendable (text f)) (λ _. v)
      (λ _. elim (Option-cases (s.by_handle f.handle)) [
        | inl e ↦ rw e v
        | inr (p, e) ↦ rw e (write_known-IsIndexed pick s l f p v)
      ])

detach_known-IsIndexed :
    (s : Server) (l : ℕ) (f : Frame) (p now : ℕ)
    → IsIndexed s
    → IsIndexed (detach_known s l f p now)
unfolding detach_known
detach_known-IsIndexed s l f p now v =
    let v' =
      SameIndex-IsIndexed (remove_session-SameIndex _ l p)
        (renewed-IsIndexed s p _ (detach_locked-SameNames (s.heap p) l now) v) in
    if_cases IsIndexed _
      (λ _.
        if_cases IsIndexed (is_closed (s.heap p).state) (λ _. forget_locked-IsIndexed _ p v')
          (λ _. v'))
      (λ _. v)

handle_detach-IsIndexed :
    (s : Server) (l : ℕ) (f : Frame) (now : ℕ) → IsIndexed s → IsIndexed (handle_detach s l f now)
unfolding handle_detach
handle_detach-IsIndexed s l f now v = elim (Option-cases (s.by_handle f.handle)) [
  | inl e ↦ rw (e, handle_detach) v
  | inr (p, e) ↦ rw (e, handle_detach) (detach_known-IsIndexed s l f p now v)
]

close_known-IsIndexed : (s : Server) (l p now : ℕ) → IsIndexed s → IsIndexed (close_known s l p now)
unfolding close_known remove_session
close_known-IsIndexed s l p now v =
    let d : Session = record ((detach_locked (s.heap p) l now).0) { finished = true } in
    let n = detach_locked-SameNames (s.heap p) l now in
    let names =
      SameNames-trans {s = s.heap p} {t = d}
        record { same_key = n.same_key; same_handle = n.same_handle; same_recent = n.same_recent }
        (shutdown-SameNames d (codes "closed by stugan")) in
    forget_locked-IsIndexed _ p (
      SameIndex-IsIndexed (closing-SameIndex _ p _) (
        renewed-IsIndexed (remove_session s l p) p _ names
          (SameIndex-IsIndexed (remove_session-SameIndex s l p) v)))

handle_close-IsIndexed :
    (s : Server) (l : ℕ) (f : Frame) (now : ℕ) → IsIndexed s → IsIndexed (handle_close s l f now)
unfolding handle_close
handle_close-IsIndexed s l f now v =
    elim (Option-cases (s.sessions (session_key (s.links l).instance_id f.id))) [
      | inl e ↦ rw (e, handle_close) v
      | inr (p, e) ↦
          rw (e, handle_close)
            (if_cases IsIndexed _ (λ _. close_known-IsIndexed s l p now v) (λ _. v))
    ]

handle_ack-IsIndexed : (s : Server) (l : ℕ) (f : Frame) → IsIndexed s → IsIndexed (handle_ack s l f)
unfolding handle_ack ack_known
handle_ack-IsIndexed s l f v =
    elim (Option-cases (s.sessions (session_key (s.links l).instance_id f.id))) [
      | inl e ↦ rw (e, handle_ack) v
      | inr (p, e) ↦
          rw (e, handle_ack)
            (SameIndex-IsIndexed
              record {
                same_heap = refl;
                same_next = refl;
                same_sessions = refl;
                same_handles = refl;
              }
              (renewed-IsIndexed s p _
                (ack-SameNames (record { used = s.used; sess = s.heap p }) f.handle f.seq) v))
    ]

-- A frame from the application, whatever it asks and whoever holds the session, keeps the two
-- indexes of the registry in agreement: every session under its key is under its current handle,
-- and the other way about.
pub handle_frame-IsIndexed :
    (addr_error : Bytes → Option Bytes) (pick : Bool) (s : Server) (l : ℕ) (f : Frame) (now : ℕ)
    → IsIndexed s
    → IsIndexed (handle_frame addr_error pick s l f now)
unfolding handle_frame
handle_frame-IsIndexed addr_error pick s l f now v =
    let sent : (g : Frame) → IsIndexed (send s l g) =
      λ g. SameIndex-IsIndexed (send-SameIndex s l g) v in
    if_cases IsIndexed (str_eq f.op Op.ping) (λ _. sent _)
      (λ _.
        if_cases IsIndexed (str_eq f.op Op.pong) (λ _. v)
          (λ _.
            if_cases IsIndexed (str_eq f.op Op.connect)
              (λ _. handle_connect-IsIndexed addr_error s l f now v)
              (λ _.
                if_cases IsIndexed (str_eq f.op Op.write) (λ _. handle_write-IsIndexed pick s l f v)
                  (λ _.
                    if_cases IsIndexed (str_eq f.op Op.ack) (λ _. handle_ack-IsIndexed s l f v)
                      (λ _.
                        if_cases IsIndexed (str_eq f.op Op.detach)
                          (λ _. handle_detach-IsIndexed s l f now v)
                          (λ _.
                            if_cases IsIndexed (str_eq f.op Op.close)
                              (λ _. handle_close-IsIndexed s l f now v) (λ _. sent _)))))))
