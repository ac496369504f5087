-- ===== src/Engine/Session/Stream/Accepting.antt =====
-- A line that enters the stream.
use stugan.Base.{
  ℕ, suc, ◌+◌, ◌≤◌, ◌<◌, ◌^◌, List, [], ◌∷◌, ◌++◌, ◌≡◌, refl, Bytes, length, length-append, add64,
  ap, sym, ◌∙◌, ◌⊎◌, arith,
}
use stugan.Engine.IrcLine.{IrcLine}
use stugan.Engine.Buffer.{BufferedLine, LineBuffer, line_cost, push}
use stugan.Engine.Buffer.Contents.{total, push-IsExact, total-append}
use stugan.Engine.Session.State.{Session}
use stugan.Engine.Session.Track.{track}
use stugan.Engine.Session.Track.Keeps.{track-SameStream, track-burst_covered}
use stugan.Engine.Session.Stream.{Held, number, enter, accept}
use stugan.Engine.Session.Stream.Sound.{IsSound, Balanced}
use stugan.Engine.Session.Stream.Shedding.{shed-Shed}

-- the line as it is buffered
abbrev pub numbered_line : ℕ → Session → Bytes → BufferedLine
numbered_line now s raw = record { seq = suc s.seq; at = now; line = raw }

number_lem :
    (now : ℕ) (s : Session) (raw : Bytes)
    → s.seq + 1 < 2 ^ 64
    → number now s raw ≡ record s { seq = suc s.seq; buf = push s.buf (numbered_line now s raw) }
unfolding number
number_lem now s raw b =
    let e : add64 s.seq 1 ≡ suc s.seq = omega arith in
    ap (λ n. record s { seq = n; buf = push s.buf (record { seq = n; at = now; line = raw }) }) e

number-IsSound :
    (reported now : ℕ) (s : Session) (raw : Bytes)
    → IsSound reported s
    → s.seq + 1 < 2 ^ 64
    → total s.buf.lines + line_cost raw < 2 ^ 63
    → IsSound reported (number now s raw)
number-IsSound reported now s raw v b fits = rw (number_lem now s raw b) (record {
  floor = v.floor;
  buffer = push-IsExact s.buf v.floor s.seq (numbered_line now s raw) v.buffer refl fits;
  seq_fits = omega arith;
  acked_le = v.acked_le;
  sent_le = omega (arith, v.sent_le);
  ever_le = omega (arith, v.ever_le);
  covered_le = omega (arith, v.covered_le);
  no_silent_loss = v.no_silent_loss;
  no_false_loss = v.no_false_loss;
})

-- Tracking moves no field of the stream but `burst_covered`.
track-IsSound :
    (reported : ℕ) (s : Session) (l : IrcLine) (raw : Bytes)
    → IsSound reported s
    → IsSound reported (track s l raw)
track-IsSound reported s l raw v =
    let k = track-SameStream s l raw in
    record {
      floor = v.floor;
      buffer = rw (k.same_buf, k.same_seq) (v.buffer);
      seq_fits = omega (arith, k.same_seq);
      acked_le = omega (arith, k.same_acked, v.acked_le);
      sent_le = omega (arith, k.same_sent, k.same_seq, v.sent_le);
      ever_le = omega (arith, k.same_ever, k.same_seq, v.ever_le);
      covered_le = ground (arith, track-burst_covered s l raw, k.same_seq, v.covered_le);
      no_silent_loss = omega (arith, k.same_acked, k.same_ever, k.same_lost, v.no_silent_loss);
      no_false_loss = omega (arith, k.same_lost, v.no_false_loss);
    }

pub enter-lines :
    (now : ℕ) (h : Held) (l : IrcLine) (raw : Bytes)
    → h.sess.seq + 1 < 2 ^ 64
    → (enter now h l raw).sess.buf.lines ≡ h.sess.buf.lines ++ numbered_line now h.sess raw ∷ []
unfolding enter push
enter-lines now h l raw b =
    ap (λ (b : LineBuffer). b.lines) ((track-SameStream (number now h.sess raw) l raw).same_buf)
    ∙ ap (λ (s : Session). s.buf.lines) (number_lem now h.sess raw b)

pub enter-IsSound :
    (reported now : ℕ) (h : Held) (l : IrcLine) (raw : Bytes)
    → IsSound reported h.sess
    → h.sess.seq + 1 < 2 ^ 64
    → total h.sess.buf.lines + line_cost raw < 2 ^ 63
    → IsSound reported (enter now h l raw).sess
unfolding enter
enter-IsSound reported now h l raw v b fits =
    track-IsSound reported (number now h.sess raw) l raw
      (number-IsSound reported now h.sess raw v b fits)

pub enter-seq :
    (now : ℕ) (h : Held) (l : IrcLine) (raw : Bytes)
    → h.sess.seq + 1 < 2 ^ 64
    → (enter now h l raw).sess.seq ≡ suc h.sess.seq
unfolding enter
enter-seq now h l raw b =
    (track-SameStream (number now h.sess raw) l raw).same_seq
    ∙ ap (λ (s : Session). s.seq) (number_lem now h.sess raw b)

enter-used :
    (now : ℕ) (h : Held) (l : IrcLine) (raw : Bytes)
    → (enter now h l raw).used ≡ add64 h.used (line_cost raw)
unfolding enter
enter-used now h l raw = refl

-- What a line that enters leaves alone, and that the recorded burst does not get shorter by it.
pub enter-marks :
    (reported now : ℕ) (h : Held) (l : IrcLine) (raw : Bytes)
    → IsSound reported h.sess
    → h.sess.seq + 1 < 2 ^ 64
    → let g : Session = (enter now h l raw).sess in
      (g.acked ≡ h.sess.acked)
      × (g.sent ≡ h.sess.sent)
      × (g.ever_sent ≡ h.sess.ever_sent)
      × (g.lost ≡ h.sess.lost)
      × (h.sess.burst_covered ≤ g.burst_covered)
unfolding enter number
enter-marks reported now h l raw v b =
    let n = number now h.sess raw in
    let k = track-SameStream n l raw in
    let next = ap (λ (s : Session). s.seq) (number_lem now h.sess raw b) in
    (
      k.same_acked,
      k.same_sent,
      k.same_ever,
      k.same_lost,
      ground (arith, track-burst_covered n l raw, v.covered_le, next),
    )

-- A line that enters gets the next number, stands last in the backlog, and is counted.
pub record Accepted (reported limit now : ℕ) (h : Held) (raw : Bytes) (g : Held) : Type 0 where
  pub sound : IsSound reported g.sess
  pub balanced : Balanced h g
  pub next : g.sess.seq ≡ suc h.sess.seq
  pub gone : List BufferedLine
  pub stored : h.sess.buf.lines ++ numbered_line now h.sess raw ∷ [] ≡ gone ++ g.sess.buf.lines
  pub bounded : (g.sess.buf.bytes ≤ limit) ⊎ (length g.sess.buf.lines ≡ 1)

-- After a line is accepted the session is sound and the shared counter in balance; the line has
-- the next number; the backlog is a tail of the old one with the line behind it; and its bytes
-- are within the limit, unless the new line alone is left.
pub accept-Accepted :
    (reported limit now : ℕ) (h : Held) (l : IrcLine) (raw : Bytes)
    → IsSound reported h.sess
    → limit < 2 ^ 63
    → h.sess.seq + 1 < 2 ^ 64
    → total h.sess.buf.lines + line_cost raw < 2 ^ 63
    → Accepted reported limit now h raw (accept limit now h l raw)
unfolding accept
accept-Accepted reported limit now h l raw v small b fits =
    let e = enter now h l raw in
    let v' = enter-IsSound reported now h l raw v b fits in
    let done = shed-Shed reported limit e small v' in
    let lines = enter-lines now h l raw b in
    let sum = ap total lines ∙ total-append h.sess.buf.lines (numbered_line now h.sess raw ∷ []) in
    let len =
      ap length lines ∙ length-append h.sess.buf.lines (numbered_line now h.sess raw ∷ []) in
    record {
      sound = done.sound;
      balanced = omega (arith, done.balanced, sum, enter-used now h l raw);
      next = ap (λ (s : Session). s.seq) done.sheds.rest_same ∙ enter-seq now h l raw b;
      gone = done.sheds.gone;
      stored = sym lines ∙ done.sheds.splits;
      bounded = omega (arith, done.stops, len, done.keeps_one (omega arith));
    }
