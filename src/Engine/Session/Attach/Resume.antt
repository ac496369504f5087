-- ===== src/Engine/Session/Attach/Resume.antt =====
-- What a new claim is sent: the attached frame, then every line it needs.
use stugan.Base.{
  ℕ, suc, ◌+◌, ◌≤◌, ◌<◌, max, true, false, List, [], ◌∷◌, ◌++◌, ◌≡◌, Bytes, length, map, append-nil,
  ap, ◌∙◌, arith,
}
use stugan.EngineProto.{Frame, blank}
use stugan.EngineProto.Op
use stugan.Engine.Buffer.{BufferedLine}
use stugan.Engine.Buffer.Contents.{past, Consecutive-length}
use stugan.Engine.Session.State.{
  Session, SessionState, held_by, is_link, is_dialing, is_closed, is_open,
}
use stugan.Engine.Session.Stream.{line_frame}
use stugan.Engine.Session.Stream.Sound.{IsSound}
use stugan.Engine.Session.Stream.Delivery.{owed, owed_lem, count_after-owed}
use stugan.Engine.Session.Stream.Draining.{drain, closing, drain_lem}
use stugan.Engine.Session.Attach.{attach_locked, replay, away}

-- A claim keeps the session sound, and the lost lines that its frame reports are accounted for.
pub attach_locked-IsSound :
    (reported : ℕ) (s : Session) (l : ℕ) (handle : Bytes) (now : ℕ)
    → IsSound reported s
    → IsSound (reported + s.lost) (attach_locked s l handle now)
unfolding attach_locked
attach_locked-IsSound reported s l handle now v = record {
  floor = v.floor;
  buffer = v.buffer;
  seq_fits = v.seq_fits;
  acked_le = v.acked_le;
  sent_le = omega (arith, Consecutive-length v.floor s.buf.lines s.seq v.buffer.run);
  ever_le = v.ever_le;
  covered_le = v.covered_le;
  no_silent_loss = omega (arith, v.no_silent_loss);
  no_false_loss = omega (arith, v.no_false_loss);
}

-- the lines that neither the application has nor the replay stands for
abbrev pub needed : Session → List BufferedLine
needed s = past (max s.acked s.burst_covered) s.buf.lines

-- the frame that a claim is answered with
abbrev pub attached_frame : Session → Bytes → ℕ → Frame
attached_frame s handle now = record blank {
  op = Op.attached;
  handle = handle;
  replay = replay s;
  nick = s.nick;
  channels = s.channels;
  unattended = s.unattended;
  detached_ms = away s.detached_at now;
  backlog = length (needed s);
  lost = s.lost;
}

open-live : (st : SessionState) → is_open st ≡ true → is_dialing st ≡ false
unfolding is_open is_dialing
open-live st h = ground arith

open-closing : (s : Session) → is_open s.state ≡ true → closing s ≡ []
unfolding is_open is_closed
open-closing s h = ground arith

held_by_self :
    (s : Session) (l : ℕ) (handle : Bytes) (now : ℕ)
    → held_by (attach_locked s l handle now) l ≡ true
unfolding attach_locked is_link
held_by_self s l handle now = ground arith

-- After a claim on an open socket, pulling until nothing is owed sends the attached frame, whose
-- backlog is the number of lines that follow, and then every buffered line past both the last
-- acknowledgement and the recorded burst, in order and each once, and nothing else.
pub attach-drain :
    (rounds reported l limit now : ℕ) (s : Session) (handle : Bytes)
    → IsSound reported s
    → is_open s.state ≡ true
    → 0 < limit
    → length (needed s) ≤ rounds
    → (drain (suc rounds) l limit (attach_locked s l handle now)).1
      ≡ attached_frame s handle now ∷ map (line_frame handle) (needed s)
unfolding attach_locked
attach-drain rounds reported l limit now s handle v live some_limit enough =
    let t = attach_locked s l handle now in
    let v' = attach_locked-IsSound reported s l handle now v in
    let lines : owed t ≡ needed s = owed_lem (reported + s.lost) t v' in
    let open_live : is_dialing s.state ≡ false = open-live s.state live in
    let all =
      drain_lem rounds (reported + s.lost) l limit t v' (held_by_self s l handle now) open_live
        some_limit (omega (arith, ap length lines)) in
    let backlog = count_after-owed t ∙ ap length lines in
    all
    ∙ (λ i.
        record (attached_frame s handle now) { backlog = backlog i }
        ∷ (map (line_frame handle) (lines i) ++ open-closing t live i))
    ∙ ap (◌∷◌ (attached_frame s handle now)) (append-nil (map (line_frame handle) (needed s)))
