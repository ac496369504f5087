-- ===== src/Engine/Session/Attach.antt =====
-- Claims on a session: attaching with a replay, and detaching.
pub mod Resume
use stugan.Base.{
  ℕ, zero, suc, ◌-◌, max, Bool, true, false, ◌&&◌, Option, none, some, List, [], ◌∷◌, ◌++◌, Bytes,
  ltb, if◌then◌else◌, length, drop, str_eq,
}
use stugan.EngineProto.Op
use stugan.EngineProto.{blank}
use stugan.Engine.IrcLine.{rewrite_target}
use stugan.Engine.Buffer.{count_after}
use stugan.Engine.Session.State.{Session, is_open, held_by, recent_handles}

is_some {ℓ} : {A : Type ℓ} → Option A → Bool
is_some none = false
is_some (some a) = true

unfoldable pub reusable : Session → Bytes → Bool
unfolding is_some
reusable s fp = is_open s.state && (s.registered && (is_some s.welcome_idx && str_eq s.fp fp))

-- The line at the welcome's place is addressed to `nick`, if that is not empty; `none` for no such
-- line ahead.
replay_burst : Option ℕ → Bytes → List Bytes → List Bytes
replay_burst at nick [] = []
replay_burst none nick (line ∷ lines) = line ∷ replay_burst none nick lines
replay_burst (some (suc i)) nick (line ∷ lines) = line ∷ replay_burst (some i) nick lines
replay_burst (some zero) [] (line ∷ lines) = line ∷ lines
replay_burst (some zero) (c ∷ nick) (line ∷ lines) = rewrite_target line (c ∷ nick) ∷ lines

-- The registration burst and the capability changes since.
unfoldable pub replay : Session → List Bytes
unfolding replay_burst
replay s = replay_burst s.welcome_idx s.nick s.burst ++ s.cap_log

-- The last eight handles may still acknowledge.
unfoldable pub remember : List Bytes → Bytes → List Bytes
remember handles handle =
    let all = handles ++ handle ∷ [] in
    if ltb recent_handles (length all) then drop (length all - recent_handles) all else all

pub away : Option ℕ → ℕ → ℕ
away none now = 0
away (some t) now = now - t

unfoldable pub attach_locked : Session → ℕ → Bytes → ℕ → Session
unfolding away
attach_locked s l handle now =
    let sent = max s.acked s.burst_covered in
    record s {
      link = some l;
      handle = handle;
      handles = remember s.handles handle;
      detached_at = none;
      sent = sent;
      ctrl =
          record blank {
            op = Op.attached;
            handle = handle;
            replay = replay s;
            nick = s.nick;
            channels = s.channels;
            unattended = s.unattended;
            detached_ms = away s.detached_at now;
            backlog = count_after s.buf sent;
            lost = s.lost;
          }
          ∷ [];
      lost = 0;
      unattended = false;
    }

-- The flag says whether `l` held the session.
unfoldable pub detach_locked : Session → ℕ → ℕ → Session × Bool
detach_locked s l now =
    if held_by s l
    then (record s { link = none; detached_at = some now; ctrl = [] }, true)
    else (s, false)
