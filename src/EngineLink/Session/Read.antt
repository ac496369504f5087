-- ===== src/EngineLink/Session/Read.antt =====
-- What the client reads: the loop of `Read`, up to where it waits.
pub mod Items
pub mod Events
pub mod Probes
use stugan.Base.{
  ℕ, Bool, true, false, not, ◌&&◌, Option, none, some, List, [], ◌∷◌, ◌++◌, Bytes, take, drop, ltb,
  leb, if◌then◌else◌,
}
use stugan.Go.Strings.{is_empty}
use stugan.EngineLink.Tags.{ack_probe}
use stugan.EngineLink.Session.{Session, Failure}

-- `waits`: nothing to read yet, until the session is signalled or the deadline passes.
pub data Got : Type 0 where
  bytes : Bytes → Got
  read_closed : Got
  read_failed : Failure → Got
  deadline_exceeded : Got
  waits : Got

-- The client has caught up: it is handed a probe.
unfoldable pub probe : (ℕ → Bytes) → Session → Session
probe decimal s =
    if is_empty s.rbuf && (ltb s.probed s.delivered && not s.closed)
    then record s { probed = s.delivered; rbuf = s.rbuf ++ ack_probe decimal s.delivered }
    else s

-- whether the deadline has passed at `now`
abbrev pub is_past : Option ℕ → ℕ → Bool
is_past none now = false
is_past (some t) now = leb t now

-- One round of the loop of `Read` into `n` bytes.
unfoldable pub read : (ℕ → Bytes) → Session → ℕ → ℕ → Session × Got
unfolding probe
read decimal s n now =
    let s' = probe decimal s in
    if not (is_empty s'.rbuf)
    then (record s' { rbuf = drop n s'.rbuf }, bytes (take n s'.rbuf))
    else if s'.closed
    then (s', read_closed)
    else elim s'.rerr [
      | some e ↦ (s', read_failed e)
      | none ↦ (s', if is_past s'.deadline now then deadline_exceeded else waits)
    ]

-- `SetReadDeadline`
unfoldable pub set_read_deadline : Session → Option ℕ → Session
set_read_deadline s t = record s { deadline = t }
