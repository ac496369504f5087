-- ===== src/Engine/Session/Stream/Delivery.antt =====
-- What `pull` sends: the lines owed, in order, each once, and the closed frame behind the last.
use stugan.Base.{
  ℕ, zero, suc, ◌+◌, ◌-◌, ◌≤◌, max, min, true, false, not, ◌&&◌, List, [], ◌∷◌, ◌++◌, ◌≡◌, refl,
  Bytes, length, take, drop, map, ap, sym, ◌∙◌, ◌==◌, if◌then◌else◌, arith, Bool-cases, inl, inr,
  append_assoc, append-nil, length-drop, drop-drop, drop-min, drop_at,
}
use stugan.Engine.Buffer.{BufferedLine, first_after, after, count_after}
use stugan.Engine.Buffer.Contents.{
  Consecutive, first_after_lem, Consecutive-length, Consecutive-drop, Consecutive-at, past,
  drop-past,
}
use stugan.Engine.Session.State.{Session, held_by, is_closed, is_dialing}
use stugan.Engine.Session.Stream.{line_frame, deliver, pull, pull_lines, pull_close, Pulled}
use stugan.Engine.Session.Stream.Sound.{IsSound}
use stugan.EngineProto.{Frame, blank}
use stugan.EngineProto.Op

-- the lines past what was sent
unfoldable pub owed : Session → List BufferedLine
owed s = drop (first_after s.buf s.sent) s.buf.lines

-- the highest number of `bls`, or `sent`
abbrev pub last_seq : List BufferedLine → ℕ → ℕ
last_seq [] sent = sent
last_seq (bl ∷ bls) sent = last_seq bls bl.seq

deliver_lem :
    (handle : Bytes) (bls : List BufferedLine) (sent : ℕ) (out : List Frame)
    → deliver handle bls sent out ≡ (last_seq bls sent, out ++ map (line_frame handle) bls)
unfolding deliver
deliver_lem handle [] sent out = rw append-nil
deliver_lem handle (bl ∷ bls) sent out =
    rw (deliver_lem handle bls bl.seq (out ++ line_frame handle bl ∷ [])) (rw append_assoc)

last_seq-Consecutive :
    (n floor : ℕ) (ls : List BufferedLine) (top sent : ℕ)
    → Consecutive floor ls top
    → last_seq (take n ls) sent
      ≡ (if min n (length ls) == 0 then sent else floor + min n (length ls))
last_seq-Consecutive zero floor ls top sent h = ground arith
last_seq-Consecutive (suc n) floor [] top sent h = ground arith
last_seq-Consecutive (suc n) floor (l ∷ ls) top sent h =
    ground (arith, last_seq-Consecutive n (suc floor) ls top l.seq h.1)

first_after_sent :
    (floor : ℕ) (s : Session)
    → Consecutive floor s.buf.lines s.seq
    → s.sent ≤ s.seq
    → first_after s.buf s.sent ≡ s.sent - floor
first_after_sent floor s run le = omega (
  arith,
  first_after_lem s.buf floor s.seq s.sent run,
  Consecutive-length floor s.buf.lines s.seq run,
)

-- The lines owed carry the numbers behind what was sent, or behind the floor, with no gap.
pub owed-Consecutive :
    (reported : ℕ) (s : Session) (v : IsSound reported s)
    → Consecutive (max v.floor s.sent) (owed s) s.seq
unfolding owed
owed-Consecutive reported s v =
    let run = v.buffer.run in
    let at = first_after_sent v.floor s run v.sent_le in
    let len = Consecutive-length v.floor s.buf.lines s.seq run in
    Consecutive-at (owed s) s.seq (omega (arith, v.sent_le)) (
      Consecutive-drop (first_after s.buf s.sent) v.floor s.buf.lines s.seq run
        (omega (arith, v.sent_le)))

-- The session behind a batch of `limit` lines.
unfoldable pub advanced : Session → ℕ → Session
advanced s limit =
    let sent = last_seq (take limit (owed s)) s.sent in
    record s { ctrl = []; sent = sent; ever_sent = max s.ever_sent sent }

pub last_seq-owed :
    (reported : ℕ) (s : Session) (v : IsSound reported s) (limit : ℕ)
    → last_seq (take limit (owed s)) s.sent ≡ (
        if min limit (length (owed s)) == 0
        then s.sent
        else max v.floor s.sent + min limit (length (owed s)))
last_seq-owed reported s v limit =
    last_seq-Consecutive limit (max v.floor s.sent) (owed s) s.seq s.sent
      (owed-Consecutive reported s v)

pub advanced-IsSound :
    (reported : ℕ) (s : Session) (limit : ℕ)
    → IsSound reported s
    → IsSound reported (advanced s limit)
unfolding advanced
advanced-IsSound reported s limit v =
    let at = last_seq-owed reported s v limit in
    let len =
      Consecutive-length (max v.floor s.sent) (owed s) s.seq (owed-Consecutive reported s v) in
    let le : last_seq (take limit (owed s)) s.sent ≤ s.seq = ground (arith, v.sent_le) in
    record {
      floor = v.floor;
      buffer = v.buffer;
      seq_fits = v.seq_fits;
      acked_le = v.acked_le;
      sent_le = le;
      ever_le = omega (arith, v.ever_le);
      covered_le = v.covered_le;
      no_silent_loss = omega (arith, v.no_silent_loss);
      no_false_loss = v.no_false_loss;
    }

-- What is owed after a batch is what was owed, less the batch.
pub owed-advanced :
    (reported : ℕ) (s : Session) (limit : ℕ)
    → IsSound reported s
    → owed (advanced s limit) ≡ drop limit (owed s)
unfolding owed advanced
owed-advanced reported s limit v =
    let k = min limit (length (owed s)) in
    let n = first_after s.buf s.sent in
    let v' = advanced-IsSound reported s limit v in
    let n_is = first_after_sent v.floor s v.buffer.run v.sent_le in
    let n'_is = first_after_sent v.floor (advanced s limit) v.buffer.run v'.sent_le in
    let moved : first_after s.buf (advanced s limit).sent ≡ n + k =
      ground (arith, last_seq-owed reported s v limit) in
    drop_at s.buf.lines moved
    ∙ sym (drop-drop n k s.buf.lines)
    ∙ drop-min limit (drop n s.buf.lines)

pub count_after-owed : (s : Session) → count_after s.buf s.sent ≡ length (owed s)
unfolding owed count_after
count_after-owed s = sym (length-drop (first_after s.buf s.sent) s.buf.lines)

-- the closed frame
abbrev pub closed_frame : Session → Frame
closed_frame s = record blank { op = Op.closed; handle = s.handle; error = s.close_err }

-- What a pull by the holder of an open or closed socket gives.
pub record Pulls (s : Session) (limit : ℕ) (s' : Session) (p : Pulled) : Type 0 where
  -- the control frames, the next lines owed, and at the end the closed frame
  pub frames :
      p.out
      ≡ (s.ctrl ++ map (line_frame s.handle) (take limit (owed s)))
        ++ (if p.done then closed_frame s ∷ [] else [])
  pub not_stale : p.stale ≡ false
  pub rest : owed s' ≡ drop limit (owed s)
  -- the closed frame goes out exactly when the socket is gone, no line is left, and it has not
  -- gone out before
  pub closes : p.done ≡ (is_closed s.state && (not s.finished && length (drop limit (owed s)) == 0))
  pub moved :
      s' ≡ (if p.done then record (advanced s limit) { finished = true } else advanced s limit)

after-owed : (s : Session) (limit : ℕ) → after s.buf s.sent limit ≡ take limit (owed s)
unfolding after owed
after-owed s limit = refl

deliver-owed :
    (s : Session) (limit : ℕ)
    → deliver s.handle (after s.buf s.sent limit) s.sent s.ctrl ≡ (
      last_seq (take limit (owed s)) s.sent,
      s.ctrl ++ map (line_frame s.handle) (take limit (owed s)),
    )
deliver-owed s limit =
    rw (after-owed s limit) (deliver_lem s.handle (take limit (owed s)) s.sent s.ctrl)

pull_lines-owed :
    (s : Session) (limit : ℕ)
    → is_dialing s.state ≡ false
    → pull_lines s limit
      ≡ (advanced s limit, s.ctrl ++ map (line_frame s.handle) (take limit (owed s)))
unfolding pull_lines advanced
pull_lines-owed s limit live = rw (live, deliver-owed s limit)

pull_close-Pulls :
    (reported : ℕ) (s : Session) (limit : ℕ)
    → IsSound reported s
    → let out = s.ctrl ++ map (line_frame s.handle) (take limit (owed s)) in
      Pulls s limit (pull_close (advanced s limit, out)).0 (pull_close (advanced s limit, out)).1
unfolding pull_close advanced owed
pull_close-Pulls reported s limit v =
    let a = advanced s limit in
    let left : count_after a.buf a.sent ≡ length (drop limit (owed s)) =
      count_after-owed a ∙ ap length (owed-advanced reported s limit v) in
    let test = is_closed s.state && (not s.finished && count_after a.buf a.sent == 0) in
    let spelled : test
        ≡ (is_closed s.state && (not s.finished && length (drop limit (owed s)) == 0)) =
      ap (λ n. is_closed s.state && (not s.finished && n == 0)) left in
    elim (Bool-cases test) [
      | inl ends ↦
          rw (ends, pull_close)
            (record {
              frames = refl;
              not_stale = refl;
              rest = owed-advanced reported s limit v;
              closes = sym ends ∙ spelled;
              moved = refl;
            })
      | inr goes_on ↦
          rw (goes_on, pull_close)
            (record {
              frames = sym (append-nil _);
              not_stale = refl;
              rest = owed-advanced reported s limit v;
              closes = sym goes_on ∙ spelled;
              moved = refl;
            })
    ]

-- A pull by the holder of a socket that is not dialing sends the control frames and the next
-- lines owed, in order and each once, and leaves the others owed; it ends with the closed frame
-- exactly if the socket is gone, no line is left and the frame has not gone out before.
pub pull-Pulls :
    (reported : ℕ) (s : Session) (l limit : ℕ)
    → IsSound reported s
    → held_by s l ≡ true
    → is_dialing s.state ≡ false
    → Pulls s limit (pull s l limit).0 (pull s l limit).1
unfolding pull
pull-Pulls reported s l limit v holds live =
    rw (holds, pull_lines-owed s limit live) (pull_close-Pulls reported s limit v)

-- What is owed, line by line: everything past the number last sent.
pub owed_lem : (reported : ℕ) (s : Session) → IsSound reported s → owed s ≡ past s.sent s.buf.lines
unfolding owed
owed_lem reported s v =
    let run = v.buffer.run in
    drop_at s.buf.lines (first_after_lem s.buf v.floor s.seq s.sent run)
    ∙ drop-past s.sent v.floor s.buf.lines s.seq run
