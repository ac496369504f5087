-- ===== src/EngineLink/Session.antt =====
-- internal/enginelink/session.go: a connection to an IRC server that is relayed through the engine. The
-- IRC client reads from it and writes to it as to a socket.
pub mod Write
pub mod Read
pub mod Acks
mod Examples
use stugan.Base.{
  ℕ, Bool, true, false, not, ◌&&◌, Option, none, some, List, [], ◌∷◌, ◌++◌, Bytes, codes, length,
  word, ◌*◌, ◌^◌, ◌%◌, max, ltb, if◌then◌else◌,
}
use stugan.EngineProto.{Frame, blank}
use stugan.EngineProto.Op
use stugan.EngineLink.Tags.{tag_line}

-- `maxPending`
abbrev pub max_pending : ℕ
max_pending = 32 * 2 ^ 20

-- Why a session failed: `ErrLinkLost`, `ErrClosed`, `ErrTakenOver`, an `UpstreamError`, what the engine
-- said, or that the client stopped reading.
pub data Failure : Type 0 where
  link_lost : Failure
  link_closed : Failure
  taken_over : Bytes → Failure
  upstream : Bytes → Failure
  engine_said : Bytes → Failure
  stopped_reading : Failure

pub record Info : Type 0 where
  pub attached : Bool
  pub unattended : Bool
  pub nick : Bytes
  pub channels : List Bytes
  pub detached_for : ℕ
  pub backlog : ℕ
  pub lost : ℕ
  pub replay : ℕ

-- `ready` is whether that channel is closed; `deadline` is `none` for the zero time; a callback is
-- a number, and `ran` the callbacks that ran. `sent` are the frames that went out, `forgotten`
-- whether the link was told to forget the session.
pub record Session : Type 0 where
  pub id : Bytes
  pub handle : Bytes
  pub marker : Bytes
  pub ready : Bool
  pub open_err : Option Failure
  pub info : Info
  pub rbuf : Bytes
  pub rerr : Option Failure
  pub closed : Bool
  pub deadline : Option ℕ
  pub restoring : Bool
  pub on_restored : Option ℕ
  pub wpartial : Bytes
  pub delivered : ℕ
  pub probed : ℕ
  pub ack_pending : ℕ
  pub ack_sent : ℕ
  pub ran : List ℕ
  pub sent : List Frame
  pub forgotten : Bool

abbrev pub no_info : Info
no_info = record {
  attached = false;
  unattended = false;
  nick = [];
  channels = [];
  detached_for = 0;
  backlog = 0;
  lost = 0;
  replay = 0;
}

-- `newSession`
unfoldable pub new_session : Bytes → Bytes → Session
new_session id handle = record {
  id = id;
  handle = handle;
  marker = codes "stugan-restore-" ++ handle;
  ready = false;
  open_err = none;
  info = no_info;
  rbuf = [];
  rerr = none;
  closed = false;
  deadline = none;
  restoring = false;
  on_restored = none;
  wpartial = [];
  delivered = 0;
  probed = 0;
  ack_pending = 0;
  ack_sent = 0;
  ran = [];
  sent = [];
  forgotten = false;
}

-- What is called once the client has answered the marker: `OnRestored`.
unfoldable pub when_restored : Session → ℕ → Session
when_restored s fn =
    if not s.restoring
    then record s { ran = s.ran ++ fn ∷ [] }
    else record s { on_restored = some fn }

-- `s.c.send(f)`, where `goes` says which frames the link takes, and the error is not looked at
unfoldable pub send : (Frame → Bool) → Session → Frame → Session
send goes s f = if goes f then record s { sent = s.sent ++ f ∷ [] } else s

abbrev pub crlf : Bytes
crlf = 13 ∷ (10 ∷ [])

-- the registration that the engine kept, as lines for the client
unfoldable pub replayed : (ℕ → Bytes) → (ℕ → Bytes) → List Bytes → Bytes
replayed decimal server_time [] = []
replayed decimal server_time (l ∷ ls) =
    tag_line decimal server_time l 0 0 true ++ (crlf ++ replayed decimal server_time ls)

-- what `opened` makes of the frame
unfoldable pub info_of : Frame → Info
info_of f = record {
  attached = true;
  unattended = f.unattended;
  nick = f.nick;
  channels = f.channels;
  detached_for = (f.detached_ms * 1000000) % word;
  backlog = f.backlog;
  lost = f.lost;
  replay = length f.replay;
}

-- the PING that ends the restore
unfoldable pub marker_ping : Bytes → Bytes
marker_ping marker = codes "PING :" ++ (marker ++ crlf)

-- `opened`; `none` for the frame `open`
unfoldable pub opened : (ℕ → Bytes) → (ℕ → Bytes) → Session → Option Frame → Session
unfolding info_of
opened decimal server_time s f = if s.ready then s else elim f [
  | none ↦ record s { ready = true }
  | some f ↦ record s {
    ready = true;
    info = info_of f;
    rbuf = s.rbuf ++ (replayed decimal server_time f.replay ++ marker_ping s.marker);
    restoring = true;
  }
]

-- `remoteClosed`
unfoldable pub remote_closed : Session → Failure → Session
remote_closed s err = record s {
  rerr = elim s.rerr [ none ↦ some err | some e ↦ some e ];
  open_err = if s.ready then s.open_err else some err;
  ready = true;
  forgotten = true;
}

-- `detach`
unfoldable pub detach : (Frame → Bool) → Session → Session
detach goes s =
    if s.closed
    then s
    else let s' = record s { closed = true; forgotten = true } in
      elim s.rerr [
        | some e ↦ s'
        | none ↦ send goes s' (record blank { op = Op.detach; handle = s.handle })
      ]

-- `Terminate`
unfoldable pub terminate : (Frame → Bool) → Session → Session
terminate goes s =
    send goes (record s { closed = true; forgotten = true })
      (record blank { op = Op.close; id = s.id; handle = s.handle })

-- whether nothing more is taken from the engine or from the client
unfoldable pub is_gone : Session → Bool
is_gone s = elim s.rerr [ some e ↦ true | none ↦ s.closed ]

-- `deliver`
unfoldable pub deliver :
    (ℕ → Bytes) → (ℕ → Bytes) → (Frame → Bool) → Session → ℕ → ℕ → Bytes → Session
unfolding is_gone
deliver decimal server_time goes s seq at line =
    if is_gone s
    then s
    else let s' = record s {
      rbuf = s.rbuf ++ (tag_line decimal server_time line seq at false ++ crlf);
      delivered = max s.delivered seq;
    } in
      if ltb max_pending (length s'.rbuf)
      then detach goes (remote_closed s' stopped_reading)
      else s'

-- `Ack`; whether the ack loop is woken
unfoldable pub ack : Session → ℕ → Session × Bool
ack s seq = if ltb s.ack_pending seq then (record s { ack_pending = seq }, true) else (s, false)

unfoldable pub ack_frame : Session → Frame
ack_frame s = record blank { op = Op.ack; id = s.id; handle = s.handle; seq = s.ack_pending }

-- The round of `flushAcks` (link.go) for one session; whether the link took the frame.
unfoldable pub flush_ack : (Frame → Bool) → Session → Session × Bool
unfolding ack_frame
flush_ack goes s =
    if ltb s.ack_sent s.ack_pending
    then (if goes (ack_frame s)
        then (record s { sent = s.sent ++ ack_frame s ∷ []; ack_sent = s.ack_pending }, true)
        else (s, false))
    else (s, true)
