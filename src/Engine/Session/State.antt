-- ===== src/Engine/Session/State.antt =====
-- The fields of `session`, its constants, and the calls that end it.
use stugan.Base.{
  ℕ, ◌*◌, ◌^◌, Bool, true, false, not, ◌&&◌, ◌||◌, Option, none, some, List, [], ◌∷◌, ◌++◌, Bytes,
  codes, ltb, ◌==◌, if◌then◌else◌, length,
}
use stugan.Engine.Buffer.{LineBuffer}
use stugan.EngineProto.Op
use stugan.EngineProto.{Frame, blank}

pub data SessionState : Type 0 where
  dialing opened closed : SessionState

unfoldable pub is_dialing : SessionState → Bool
is_dialing dialing = true
is_dialing opened = false
is_dialing closed = false

unfoldable pub is_open : SessionState → Bool
is_open dialing = false
is_open opened = true
is_open closed = false

unfoldable pub is_closed : SessionState → Bool
is_closed dialing = false
is_closed opened = false
is_closed closed = true

abbrev pub max_burst_bytes : ℕ
max_burst_bytes = 64 * 2 ^ 10

abbrev pub max_cap_log_bytes : ℕ
max_cap_log_bytes = 16 * 2 ^ 10

abbrev pub recent_handles : ℕ
recent_handles = 8

abbrev pub write_queue_size : ℕ
write_queue_size = 1024

abbrev pub probe_token : Bytes
probe_token = codes "stugan-engine-probe"

-- A link is known by a number; `none` is the nil link, the zero time and the index -1. `conn`
-- says that the connection is not nil, and `stopped` that the channel `stop` is closed. Times are
-- in milliseconds.
pub record Session : Type 0 where
  pub key : Bytes
  pub instance_id : Bytes
  pub id : Bytes
  pub fp : Bytes
  pub addr : Bytes
  pub created : ℕ
  pub write_q : List Bytes
  pub stopped : Bool
  pub state : SessionState
  pub close_err : Bytes
  pub conn : Bool
  pub link : Option ℕ
  pub handle : Bytes
  pub handles : List Bytes
  pub detached_at : Option ℕ
  pub buf : LineBuffer
  pub seq : ℕ
  pub acked : ℕ
  pub sent : ℕ
  pub ever_sent : ℕ
  pub lost : ℕ
  pub ctrl : List Frame
  pub finished : Bool
  pub registered : Bool
  pub unattended : Bool
  pub burst : List Bytes
  pub burst_bytes : ℕ
  pub burst_open : Bool
  pub burst_covered : ℕ
  pub welcome_idx : Option ℕ
  pub nick : Bytes
  pub channels : List Bytes
  pub cap_log : List Bytes
  pub cap_log_bytes : ℕ

pub data Effect : Type 0 where
  notify : ℕ → Effect
  reclaim : Effect
  end_session : Bytes → Effect
  forget : Effect
  close_conn : Effect

unfoldable pub new_session : ℕ → Bytes → Frame → Bytes → ℕ → Session
new_session l instance_id f key now = record {
  key = key;
  instance_id = instance_id;
  id = f.id;
  fp = f.fingerprint;
  addr = f.addr;
  created = now;
  write_q = [];
  stopped = false;
  state = dialing;
  close_err = [];
  conn = false;
  link = some l;
  handle = f.handle;
  handles = f.handle ∷ [];
  detached_at = none;
  buf = record { lines = []; bytes = 0 };
  seq = 0;
  acked = 0;
  sent = 0;
  ever_sent = 0;
  lost = 0;
  ctrl = [];
  finished = false;
  registered = false;
  unattended = false;
  burst = [];
  burst_bytes = 0;
  burst_open = false;
  burst_covered = 0;
  welcome_idx = none;
  nick = [];
  channels = [];
  cap_log = [];
  cap_log_bytes = 0;
}

unfoldable pub is_link : Option ℕ → ℕ → Bool
is_link none l = false
is_link (some k) l = k == l

-- `s.link == l`
abbrev pub held_by : Session → ℕ → Bool
held_by s l = is_link s.link l

-- `if l != nil { l.notify() }`
pub notify_if : Option ℕ → List Effect
notify_if (some l) = notify l ∷ []
notify_if none = []

-- `release`
pub release : Option ℕ → List Effect
release (some l) = notify l ∷ []
release none = forget ∷ []

-- `dial` behind `open`, whose error is the argument; `none` for success.
unfoldable pub dial : Session → Option Bytes → Session × List Effect
unfolding is_closed release notify_if
dial s (some err) =
    if is_closed s.state
    then (s, [])
    else (record s { state = closed; close_err = err; stopped = true }, release s.link)
dial s none = if is_closed s.state then (s, close_conn ∷ []) else (
  record s {
    conn = true;
    state = opened;
    burst_open = true;
    ctrl = s.ctrl ++ record blank { op = Op.opened; handle = s.handle } ∷ [];
  },
  notify_if s.link,
)

-- `enqueueWrite`. The flag is the choice of `select` where the queue has room and `stop` is closed.
unfoldable pub enqueue_write : Bool → Session → Bytes → Session × List Effect
enqueue_write pick_queue s line =
    let room = ltb (length s.write_q) write_queue_size in
    if room && (not s.stopped || pick_queue)
    then (record s { write_q = s.write_q ++ line ∷ [] }, [])
    else if s.stopped
    then (s, [])
    else (s, end_session (codes "write queue overflow (server not reading)") ∷ [])

-- `shutdown`: the session, the link to tell, and whether this call did it.
unfoldable pub shutdown : Session → Bytes → Session × Option ℕ × Bool × List Effect
unfolding is_closed
shutdown s reason = if is_closed s.state then (s, none, false, []) else (
  record s { state = closed; close_err = reason; stopped = true },
  s.link,
  true,
  if s.conn then close_conn ∷ [] else [],
)
