-- ===== src/Engine/Server/Handlers.antt =====
-- What each frame from the application does: `handleFrame` and the handlers that it calls.
use stugan.Base.{
  ℕ, suc, Bool, true, false, not, ◌&&◌, ◌||◌, Option, none, some, List, [], ◌∷◌, ◌++◌, Bytes, codes,
  ◌==◌, if◌then◌else◌, str_eq, ltb, lt_i64, length,
}
use stugan.EngineProto.Op
use stugan.EngineProto.{Frame, blank, text, max_line_bytes}
use stugan.Go.Strings.{contains_byte}
use stugan.Engine.Session.State.{
  Session, Effect, end_session, new_session, held_by, is_open, is_closed, shutdown, enqueue_write,
}
use stugan.Engine.Session.Stream.{ack}
use stugan.Engine.Session.Attach.{reusable, attach_locked, detach_locked}
use stugan.Engine.Server.State.{
  Server, wake, dial_session, close_socket, overflow, put, put_str, session_key, task, set_session,
  send, add_session, remove_session, delete_if, forget_locked,
}

pub is_empty : Bytes → Bool
is_empty [] = true
is_empty (c ∷ s) = false

-- the frame of `fail` in `handleConnect`
unfoldable pub fail : Server → ℕ → Frame → Bytes → Server
fail s l f msg = send s l (record blank { op = Op.error; handle = f.handle; error = msg })

-- What the holder of a session hears when it loses it.
unfoldable pub lose : Server → ℕ → ℕ → Bytes → Bytes → Server
lose s holder p old_handle why =
    send (remove_session s holder p) holder
      (record blank { op = Op.detached; handle = old_handle; error = why })

-- The holder, if there is one, gives the session up.
unfoldable pub evict : Server → ℕ → Bytes → Server
unfolding lose
evict s p why = elim (s.heap p).link [
  | none ↦ s
  | some holder ↦ lose s holder p (s.heap p).handle why
]

-- A fresh socket.
unfoldable pub dial_fresh : Server → ℕ → Frame → Bytes → ℕ → Server
dial_fresh s l f key now =
    let p = s.next in
    let made = record s {
      heap = put s.heap p (new_session l (s.links l).instance_id f key now);
      next = suc p;
      sessions = put_str s.sessions key (some p);
      by_handle = put_str s.by_handle f.handle (some p);
      registered = s.registered ++ p ∷ [];
    } in
    task (add_session made l p) (dial_session p f)

-- An attach to a held socket.
unfoldable pub re_attach : Server → ℕ → Frame → ℕ → ℕ → Server
re_attach s l f p now =
    let given_up = evict s p (codes "taken over by a newer connect") in
    let sess = given_up.heap p in
    let freed = record given_up { by_handle = delete_if given_up.by_handle sess.handle p } in
    let claimed = record freed {
      heap = put freed.heap p (attach_locked sess l f.handle now);
      by_handle = put_str freed.by_handle f.handle (some p);
    } in
    task (add_session claimed l p) (wake l)

-- The socket that a `shutdown` closes.
unfoldable pub closing : Server → ℕ → List Effect → Server
closing s p [] = s
closing s p (e ∷ es) = task s (close_socket p)

unfoldable pub detached_from_holder : Session → ℕ → Session
detached_from_holder sess now = elim sess.link [
  | none ↦ sess
  | some holder ↦ (detach_locked sess holder now).0
]

-- The end of a socket that cannot be attached to.
unfoldable pub replace : Server → ℕ → ℕ → Server
unfolding detached_from_holder closing
replace s p now =
    let given_up = evict s p (codes "replaced by a new connection") in
    let (ended, told, did, effects) =
      shutdown (detached_from_holder (given_up.heap p) now)
        (codes "replaced by a new connection") in
    let stopped = set_session given_up p ended in forget_locked (closing stopped p effects) p

-- A newer process holds the session.
unfoldable pub outranked : Server → Option ℕ → ℕ → Bool
outranked s none l = false
outranked s (some holder) l = not (holder == l) && lt_i64 (s.links l).gen (s.links holder).gen

unfoldable pub connect_known : Server → ℕ → Frame → Bytes → ℕ → ℕ → Server
unfolding outranked re_attach evict replace
connect_known s l f key p now =
    if outranked s (s.heap p).link l
    then fail s l f (codes "connection is held by a newer stugan process")
    else if reusable (s.heap p) f.fingerprint
    then re_attach s l f p now
    else dial_fresh (replace s p now) l f key now

-- `handleConnect`; `addr_error` is the error that `net.SplitHostPort` gives.
unfoldable pub handle_connect : (Bytes → Option Bytes) → Server → ℕ → Frame → ℕ → Server
unfolding fail dial_fresh connect_known is_empty
handle_connect addr_error s l f now =
    let key = session_key (s.links l).instance_id f.id in
    if is_empty f.id || (is_empty f.handle || is_empty f.addr)
    then fail s l f (codes "connect: missing id, handle or addr")
    else elim (addr_error f.addr) [
      | some err ↦ fail s l f (codes "connect: bad addr: " ++ err)
      | none ↦
          if s.closed
          then fail s l f (codes "engine shutting down")
          else elim (s.by_handle f.handle) [
            | some q ↦ fail s l f (codes "connect: handle already in use")
            | none ↦ elim (s.sessions key) [
              | some p ↦ connect_known s l f key p now
              | none ↦ dial_fresh s l f key now
            ]
          ]
    ]

-- `strings.ContainsAny(line, "\r\n\x00")`
breaks_line : Bytes → Bool
breaks_line line = contains_byte line 13 || (contains_byte line 10 || contains_byte line 0)

unfoldable pub overflows : Server → ℕ → List Effect → Server
overflows s p [] = s
overflows s p (end_session reason ∷ es) = task s (overflow p reason)
overflows s p (e ∷ es) = s

-- no line that the engine sends
unfoldable pub unsendable : Bytes → Bool
unfolding is_empty breaks_line
unsendable line = is_empty line || (ltb max_line_bytes (length line) || breaks_line line)

unfoldable pub write_known : Bool → Server → ℕ → Frame → ℕ → Server
unfolding overflows
write_known pick_queue s l f p =
    let sess = s.heap p in
    if str_eq sess.handle f.handle && (held_by sess l && is_open sess.state)
    then (let (sess', effects) = enqueue_write pick_queue sess (text f) in
        overflows (set_session s p sess') p effects)
    else s

-- `handleWrite`
unfoldable pub handle_write : Bool → Server → ℕ → Frame → Server
unfolding unsendable write_known
handle_write pick_queue s l f =
    if unsendable (text f)
    then s
    else elim (s.by_handle f.handle) [ none ↦ s | some p ↦ write_known pick_queue s l f p ]

unfoldable pub detach_known : Server → ℕ → Frame → ℕ → ℕ → Server
detach_known s l f p now =
    let sess = s.heap p in
    if str_eq sess.handle f.handle && held_by sess l
    then (let detached = remove_session (set_session s p (detach_locked sess l now).0) l p in
        if is_closed sess.state then forget_locked detached p else detached)
    else s

-- `handleDetach`
unfoldable pub handle_detach : Server → ℕ → Frame → ℕ → Server
unfolding detach_known
handle_detach s l f now = elim (s.by_handle f.handle) [
  | none ↦ s
  | some p ↦ detach_known s l f p now
]

-- the claim may end the socket
unfoldable pub may_close : Session → ℕ → Bytes → Bool
may_close sess l handle =
    str_eq sess.handle handle && elim sess.link [ none ↦ true | some k ↦ k == l ]

unfoldable pub close_known : Server → ℕ → ℕ → ℕ → Server
close_known s l p now =
    let detached = record ((detach_locked (s.heap p) l now).0) { finished = true } in
    let (ended, told, did, effects) = shutdown detached (codes "closed by stugan") in
    let stopped = set_session (remove_session s l p) p ended in
    forget_locked (closing stopped p effects) p

-- `handleClose`
unfoldable pub handle_close : Server → ℕ → Frame → ℕ → Server
unfolding may_close close_known closing
handle_close s l f now = elim (s.sessions (session_key (s.links l).instance_id f.id)) [
  | none ↦ s
  | some p ↦ if may_close (s.heap p) l f.handle then close_known s l p now else s
]

-- an acknowledgement, on the session and the shared counter
unfoldable pub ack_known : Server → ℕ → Frame → Server
ack_known s p f =
    let h = ack (record { used = s.used; sess = s.heap p }) f.handle f.seq in
    record (set_session s p h.sess) { used = h.used }

unfoldable pub handle_ack : Server → ℕ → Frame → Server
unfolding ack_known
handle_ack s l f = elim (s.sessions (session_key (s.links l).instance_id f.id)) [
  | none ↦ s
  | some p ↦ ack_known s p f
]

-- `handleFrame`
unfoldable pub handle_frame : (Bytes → Option Bytes) → Bool → Server → ℕ → Frame → ℕ → Server
unfolding handle_ack
handle_frame addr_error pick_queue s l f now =
    if str_eq f.op Op.ping
    then send s l (record blank { op = Op.pong })
    else if str_eq f.op Op.pong
    then s
    else if str_eq f.op Op.connect
    then handle_connect addr_error s l f now
    else if str_eq f.op Op.write
    then handle_write pick_queue s l f
    else if str_eq f.op Op.ack
    then handle_ack s l f
    else if str_eq f.op Op.detach
    then handle_detach s l f now
    else if str_eq f.op Op.close
    then handle_close s l f now
    else send s l
        (record blank { op = Op.error; handle = f.handle; error = codes "unknown op " ++ f.op })
