-- ===== src/Engine/Session/Track.antt =====
-- `track`: the little IRC state that a replay is built from.
pub mod Keeps
use stugan.Base.{
  ◌+◌, Bool, true, false, not, ◌&&◌, ◌||◌, Option, none, some, List, [], ◌∷◌, ◌++◌, Bytes, codes,
  ltb, leb, if◌then◌else◌, length, str_eq,
}
use stugan.Go.Strings.{split, equal_fold}
use stugan.Engine.IrcLine.{IrcLine, param, fold, is_burst_command, end_of_burst}
use stugan.Engine.Session.State.{Session, max_burst_bytes, max_cap_log_bytes}

is_none {ℓ} : {A : Type ℓ} → Option A → Bool
is_none none = true
is_none (some a) = false

is_empty : Bytes → Bool
is_empty [] = true
is_empty (c ∷ s) = false

-- A burst command, while the burst is recorded.
record_burst : Session → Bytes → Bytes → Session
unfolding is_none
record_burst s cmd raw =
    if ltb max_burst_bytes (s.burst_bytes + length raw)
    then record s { burst_open = false }
    else record s {
      burst = s.burst ++ raw ∷ [];
      burst_bytes = s.burst_bytes + length raw;
      welcome_idx =
          if str_eq cmd (codes "001") && is_none s.welcome_idx
          then some (length s.burst)
          else s.welcome_idx;
    }

during_burst : Session → IrcLine → Bytes → Session
unfolding record_burst
during_burst s l raw =
    let covered = record s { burst_covered = s.seq } in
    let recorded = if is_burst_command l.cmd then record_burst covered l.cmd raw else covered in
    if end_of_burst l.cmd then record recorded { burst_open = false } else recorded

-- A change of capabilities after registration.
record_caps : Session → IrcLine → Bytes → Session
record_caps s l raw =
    if str_eq l.cmd (codes "CAP")
      && (equal_fold (param l 1) (codes "ACK") || equal_fold (param l 1) (codes "DEL"))
    then if leb (s.cap_log_bytes + length raw) max_cap_log_bytes
      then record s {
        cap_log = s.cap_log ++ raw ∷ [];
        cap_log_bytes = s.cap_log_bytes + length raw;
      }
      else s
    else s

unfoldable pub track_burst : Session → IrcLine → Bytes → Session
unfolding during_burst record_caps
track_burst s l raw = if s.burst_open then during_burst s l raw else record_caps s l raw

-- some channel of the list folds to `f`
unfoldable pub has_folded : Bytes → List Bytes → Bool
has_folded f [] = false
has_folded f (c ∷ cs) = str_eq (fold c) f || has_folded f cs

-- `addChannel`, on the channels
unfoldable pub add_channel : List Bytes → Bytes → List Bytes
unfolding is_empty has_folded
add_channel channels ch =
    if is_empty ch || str_eq ch (codes "0")
    then channels
    else if has_folded (fold ch) channels
    then channels
    else channels ++ ch ∷ []

delete_folded : Bytes → List Bytes → List Bytes
delete_folded f [] = []
delete_folded f (c ∷ cs) =
    let rest = delete_folded f cs in if str_eq (fold c) f then rest else c ∷ rest

-- `removeChannel`, on the channels
unfoldable pub remove_channel : List Bytes → Bytes → List Bytes
unfolding delete_folded
remove_channel channels ch = delete_folded (fold ch) channels

-- `for ch := range …`
each_channel : (List Bytes → Bytes → List Bytes) → List Bytes → List Bytes → List Bytes
each_channel step channels [] = channels
each_channel step channels (ch ∷ chs) = each_channel step (step channels ch) chs

-- The line's source is this session's own nick.
pub is_self : Session → IrcLine → Bool
unfolding is_empty
is_self s l = not (is_empty s.nick) && (not (is_empty l.nick) && str_eq (fold l.nick) (fold s.nick))

welcome : Session → Bytes → Session
unfolding is_none is_empty
welcome s n =
    let registered = record s {
      registered = true;
      unattended = if s.registered then s.unattended else is_none s.link;
    } in
    if is_empty n then registered else record registered { nick = n }

-- The switch on the command.
unfoldable pub track_self : Session → IrcLine → Session
unfolding welcome is_self is_empty each_channel
track_self s l =
    if str_eq l.cmd (codes "001")
    then welcome s (param l 0)
    else if str_eq l.cmd (codes "NICK")
    then if is_self s l && not (is_empty (param l 0)) then record s { nick = param l 0 } else s
    else if str_eq l.cmd (codes "JOIN")
    then if is_self s l
      then record s { channels = each_channel add_channel s.channels (split (param l 0) b',') }
      else s
    else if str_eq l.cmd (codes "PART")
    then if is_self s l
      then record s { channels = each_channel remove_channel s.channels (split (param l 0) b',') }
      else s
    else if str_eq l.cmd (codes "KICK")
    then if not (is_empty s.nick) && str_eq (fold (param l 1)) (fold s.nick)
      then record s { channels = remove_channel s.channels (param l 0) }
      else s
    else s

unfoldable pub track : Session → IrcLine → Bytes → Session
unfolding track_burst track_self
track s l raw = track_self (track_burst s l raw) l
