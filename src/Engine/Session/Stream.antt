-- ===== src/Engine/Session/Stream.antt =====
-- The line stream of a session: `ingest` numbers and buffers, `pull` sends, `ack` forgets, and the
-- byte budgets shed the oldest lines.
pub mod Sound
pub mod Shedding
pub mod Accepting
pub mod Delivery
pub mod Acking
pub mod Draining
pub mod Ingesting
use stugan.Base.{
  ℕ, zero, suc, max, Bool, true, false, not, ◌&&◌, ◌||◌, Option, none, some, List, [], ◌∷◌, ◌++◌,
  Bytes, codes, ltb, leb, ◌==◌, if◌then◌else◌, length, str_eq, add64, sub64, lt_i64,
}
use stugan.Go.Space.{trim_space}
use stugan.EngineProto.Op
use stugan.EngineProto.{Frame, blank, set_line}
use stugan.Engine.IrcLine.{IrcLine, parse_line, last}
use stugan.Engine.Buffer.{
  BufferedLine, LineBuffer, line_cost, push, drop_oldest, ack_through, after, count_after,
}
use stugan.Engine.Session.State.{
  Session, Effect, reclaim, is_dialing, is_open, is_closed, held_by, notify_if, enqueue_write,
  probe_token,
}
use stugan.Engine.Session.Track.{track}

-- A session beside the byte counter of the shared budget.
pub record Held : Type 0 where
  pub used : ℕ
  pub sess : Session

-- What the buffer's `drop_oldest` gave is charged to the session.
account : Held → LineBuffer × Option BufferedLine → Held
account h (b, none) = h
account h (b, some l) = record {
  used = sub64 h.used (line_cost l.line);
  sess = record (h.sess) {
    buf = b;
    lost = if ltb h.sess.ever_sent l.seq then add64 h.sess.lost 1 else h.sess.lost;
  };
}

-- `dropOldestLocked`
unfoldable pub drop_oldest_locked : Held → Held
unfolding account
drop_oldest_locked h = account h (drop_oldest h.sess.buf)

-- `for s.buf.bytes > BufferBytes && s.buf.len() > 1 { s.dropOldestLocked() }`, on fuel
shed_loop : ℕ → ℕ → Held → Held
shed_loop zero limit h = h
shed_loop (suc fuel) limit h =
    elim (lt_i64 limit h.sess.buf.bytes && ltb 1 (length h.sess.buf.lines)) [
      | true ↦ shed_loop fuel limit (drop_oldest_locked h)
      | false ↦ h
    ]

-- Each round drops a line, so as many rounds as there are lines are enough.
unfoldable pub shed : ℕ → Held → Held
unfolding shed_loop
shed limit h = shed_loop (length h.sess.buf.lines) limit h

-- `shedOldest`: the hook of the shared budget
unfoldable pub shed_oldest : Held → Held × Bool
shed_oldest h = if leb (length h.sess.buf.lines) 1 then (h, false) else (drop_oldest_locked h, true)

-- The numbered part of `ingest`: the line gets its number, enters the buffer and is tracked.
number : ℕ → Session → Bytes → Session
number now s raw =
    let seq = add64 s.seq 1 in
    record s { seq = seq; buf = push s.buf (record { seq = seq; at = now; line = raw }) }

unfoldable pub enter : ℕ → Held → IrcLine → Bytes → Held
unfolding number
enter now h l raw = record {
  used = add64 h.used (line_cost raw);
  sess = track (number now h.sess raw) l raw;
}

unfoldable pub accept : ℕ → ℕ → Held → IrcLine → Bytes → Held
accept limit now h l raw = shed limit (enter now h l raw)

-- `opts.BufferBytes`, the upper-case mapping of Unicode text, and the choice of `select`.
pub record Env : Type 0 where
  pub unicode : Bytes → Bytes
  pub buffer_bytes : ℕ
  pub pick_queue : Bool

on_session : ℕ → Session × List Effect → Held × List Effect
on_session used (s, effects) = (record { used = used; sess = s }, effects)

-- `ingest` of a line that parses
ingest_line : Env → ℕ → Held → IrcLine → Bytes → Held × List Effect
unfolding on_session
ingest_line env now h l raw =
    if ltb (length (trim_space raw)) 2
    then (h, [])
    else if str_eq l.cmd (codes "PING")
    then on_session h.used (enqueue_write env.pick_queue h.sess (codes "PONG :" ++ last l))
    else if str_eq l.cmd (codes "PONG") && str_eq (last l) probe_token
    then (h, [])
    else if not (is_open h.sess.state)
    then (h, [])
    else (accept env.buffer_bytes now h l raw, reclaim ∷ notify_if h.sess.link)

unfoldable pub ingest : Env → ℕ → Held → Bytes → Held × List Effect
unfolding ingest_line
ingest env now h raw = elim (parse_line env.unicode raw) [
  | none ↦ (h, [])
  | some l ↦ ingest_line env now h l raw
]

unfoldable pub line_frame : Bytes → BufferedLine → Frame
line_frame handle bl =
    set_line (record blank { op = Op.line; handle = handle; seq = bl.seq; at = bl.at }) bl.line

-- `for _, bl := range …`: the highest number sent and the frames
deliver : Bytes → List BufferedLine → ℕ → List Frame → ℕ × List Frame
deliver handle [] sent out = (sent, out)
deliver handle (bl ∷ bls) sent out = deliver handle bls bl.seq (out ++ line_frame handle bl ∷ [])

pub record Pulled : Type 0 where
  pub out : List Frame
  pub done : Bool
  pub stale : Bool

-- The lines owed, behind the control frames.
pull_lines : Session → ℕ → Session × List Frame
unfolding deliver
pull_lines s limit =
    let (sent, out) = deliver s.handle (after s.buf s.sent limit) s.sent s.ctrl in
    if is_dialing s.state
    then (record s { ctrl = [] }, s.ctrl)
    else (record s { ctrl = []; sent = sent; ever_sent = max s.ever_sent sent }, out)

-- The closed frame, once the socket is gone and every line went out.
pull_close : Session × List Frame → Session × Pulled
pull_close (s, out) =
    if is_closed s.state && (not s.finished && count_after s.buf s.sent == 0)
    then (
      record s { finished = true },
      record {
        out = out ++ record blank { op = Op.closed; handle = s.handle; error = s.close_err } ∷ [];
        done = true;
        stale = false;
      },
    )
    else (s, record { out = out; done = false; stale = false })

unfoldable pub pull : Session → ℕ → ℕ → Session × Pulled
unfolding pull_lines pull_close
pull s l limit =
    if held_by s l
    then pull_close (pull_lines s limit)
    else (s, record { out = []; done = false; stale = true })

unfoldable pub contains : List Bytes → Bytes → Bool
contains [] h = false
contains (x ∷ xs) h = str_eq x h || contains xs h

unfoldable pub ack : Held → Bytes → ℕ → Held
unfolding contains
ack h handle seq =
    let (buf, freed) = ack_through h.sess.buf seq in
    if not (contains h.sess.handles handle) || (leb seq h.sess.acked || ltb h.sess.seq seq)
    then h
    else record { used = sub64 h.used freed; sess = record (h.sess) { buf = buf; acked = seq } }
