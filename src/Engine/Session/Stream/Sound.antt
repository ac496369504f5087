-- ===== src/Engine/Session/Stream/Sound.antt =====
-- The invariant of a session's stream, and that each operation of it keeps it.
use stugan.Base.{
  ℕ, suc, ◌+◌, ◌≤◌, ◌<◌, ◌^◌, ◌%◌, max, List, [], ◌∷◌, ◌≡◌, refl, length, add64, sub64, word, ap,
  ltb, if◌then◌else◌, arith,
}
use stugan.Engine.Buffer.{BufferedLine, line_cost}
use stugan.Engine.Buffer.Contents.{
  total, Consecutive, IsExact, Consecutive-length, drop_oldest-cons,
}
use stugan.Engine.Session.State.{Session}
use stugan.Engine.Session.Stream.{Held, drop_oldest_locked}

-- `reported` counts the lost lines that attached frames have told the application of.
pub record IsSound (reported : ℕ) (s : Session) : Type 0 where
  -- every line up to the floor has left the buffer, every later one is in it
  pub floor : ℕ
  pub buffer : IsExact floor s.seq s.buf
  pub seq_fits : s.seq < 2 ^ 64
  pub acked_le : s.acked ≤ floor
  pub sent_le : s.sent ≤ s.seq
  pub ever_le : s.ever_sent ≤ s.seq
  pub covered_le : s.burst_covered ≤ s.seq
  -- what left reaches no further than the marks of what was acknowledged or taken for sent, and the losses
  pub no_silent_loss : floor ≤ max s.acked s.ever_sent + (reported + s.lost)
  pub no_false_loss : reported + s.lost ≤ floor

-- The byte counter of the budget moved with the session's own bytes.
abbrev pub Balanced : Held → Held → Type 0
Balanced h g = (g.used + total h.sess.buf.lines) % word ≡ (h.used + total g.sess.buf.lines) % word

-- The session and the counter behind a drop of the line `l` in front of `ls`.
unfoldable pub dropped : Held → BufferedLine → List BufferedLine → Held
dropped h l ls = record {
  used = sub64 h.used (line_cost l.line);
  sess = record (h.sess) {
    buf = record { lines = ls; bytes = sub64 h.sess.buf.bytes (line_cost l.line) };
    lost = if ltb h.sess.ever_sent l.seq then add64 h.sess.lost 1 else h.sess.lost;
  };
}

pub drop_oldest_locked-cons :
    (h : Held) (l : BufferedLine) (ls : List BufferedLine)
    → h.sess.buf.lines ≡ l ∷ ls
    → drop_oldest_locked h ≡ dropped h l ls
unfolding drop_oldest_locked dropped
drop_oldest_locked-cons h l ls e = rw (drop_oldest-cons h.sess.buf l ls e)

dropped-IsSound :
    (reported : ℕ) (h : Held) (l : BufferedLine) (ls : List BufferedLine)
    → h.sess.buf.lines ≡ l ∷ ls
    → IsSound reported h.sess
    → IsSound reported (dropped h l ls).sess
unfolding dropped
dropped-IsSound reported h l ls e v =
    let run : Consecutive v.floor (l ∷ ls) h.sess.seq = rw e at v.buffer.run in
    let len = Consecutive-length (suc v.floor) ls h.sess.seq run.1 in
    let sum : total h.sess.buf.lines ≡ total (l ∷ ls) = ap total e in
    record {
      floor = suc v.floor;
      buffer = record {
        run = run.1;
        bytes_are = omega (arith, v.buffer.bytes_are, v.buffer.fits);
        fits = omega (arith, v.buffer.fits);
      };
      seq_fits = v.seq_fits;
      acked_le = omega (arith, v.acked_le);
      sent_le = v.sent_le;
      ever_le = v.ever_le;
      covered_le = v.covered_le;
      no_silent_loss = ground (arith, v.no_silent_loss, v.no_false_loss, v.seq_fits);
      no_false_loss = ground (arith, v.no_false_loss, v.seq_fits);
    }

dropped-Balanced :
    (h : Held) (l : BufferedLine) (ls : List BufferedLine)
    → h.sess.buf.lines ≡ l ∷ ls
    → total h.sess.buf.lines < 2 ^ 63
    → Balanced h (dropped h l ls)
unfolding dropped
dropped-Balanced h l ls e fits =
    let sum : total h.sess.buf.lines ≡ total (l ∷ ls) = ap total e in omega arith

-- A backlog that is not empty, taken apart.
abbrev pub cons_of_pos :
    (ls : List BufferedLine)
    → 0 < length ls
    → (l : BufferedLine) × (rest : List BufferedLine) × (ls ≡ l ∷ rest)
cons_of_pos [] h = absurd (omega arith)
cons_of_pos (l ∷ rest) h = (l, rest, refl)

-- Dropping the oldest line keeps the session sound.
pub drop_oldest_locked-IsSound :
    (reported : ℕ) (h : Held)
    → 0 < length h.sess.buf.lines
    → IsSound reported h.sess
    → IsSound reported (drop_oldest_locked h).sess
drop_oldest_locked-IsSound reported h n v =
    let (l, ls, e) = cons_of_pos h.sess.buf.lines n in
    rw (drop_oldest_locked-cons h l ls e) (dropped-IsSound reported h l ls e v)

pub drop_oldest_locked-Balanced :
    (h : Held)
    → 0 < length h.sess.buf.lines
    → total h.sess.buf.lines < 2 ^ 63
    → Balanced h (drop_oldest_locked h)
drop_oldest_locked-Balanced h n fits =
    let (l, ls, e) = cons_of_pos h.sess.buf.lines n in
    rw (drop_oldest_locked-cons h l ls e) (dropped-Balanced h l ls e fits)
