-- ===== src/Engine/Session/Track/Keeps.antt =====
-- What `track` leaves alone.
use stugan.Base.{◌≡◌, ◌∙◌, if◌then◌else◌, Bytes, arith}
use stugan.Engine.IrcLine.{IrcLine}
use stugan.Engine.Session.State.{Session}
use stugan.Engine.Session.Track.{track, track_burst, track_self}

pub record SameStream (s t : Session) : Type 0 where
  pub same_buf : t.buf ≡ s.buf
  pub same_seq : t.seq ≡ s.seq
  pub same_acked : t.acked ≡ s.acked
  pub same_sent : t.sent ≡ s.sent
  pub same_ever : t.ever_sent ≡ s.ever_sent
  pub same_lost : t.lost ≡ s.lost

track_burst-SameStream :
    (s : Session) (l : IrcLine) (raw : Bytes) → SameStream s (track_burst s l raw)
unfolding track_burst
track_burst-SameStream s l raw = ground arith

track_self-SameStream : (s : Session) (l : IrcLine) → SameStream s (track_self s l)
unfolding track_self
track_self-SameStream s l = ground arith

pub track-SameStream : (s : Session) (l : IrcLine) (raw : Bytes) → SameStream s (track s l raw)
unfolding track
track-SameStream s l raw =
    ground (arith, track_burst-SameStream s l raw, track_self-SameStream (track_burst s l raw) l)

track_self-burst_covered :
    (s : Session) (l : IrcLine) → (track_self s l).burst_covered ≡ s.burst_covered
unfolding track_self
track_self-burst_covered s l = ground arith

track_burst-burst_covered :
    (s : Session) (l : IrcLine) (raw : Bytes)
    → (track_burst s l raw).burst_covered ≡ (if s.burst_open then s.seq else s.burst_covered)
unfolding track_burst
track_burst-burst_covered s l raw = ground arith

-- A line covers the burst exactly while the burst is recorded.
pub track-burst_covered :
    (s : Session) (l : IrcLine) (raw : Bytes)
    → (track s l raw).burst_covered ≡ (if s.burst_open then s.seq else s.burst_covered)
unfolding track
track-burst_covered s l raw =
    track_self-burst_covered (track_burst s l raw) l ∙ track_burst-burst_covered s l raw
