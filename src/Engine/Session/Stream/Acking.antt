-- ===== src/Engine/Session/Stream/Acking.antt =====
-- Acknowledgements: which are taken, and what they free.
use stugan.Base.{
  ℕ, ◌≤◌, ◌<◌, max, Bool, true, false, not, ◌&&◌, ◌||◌, ◌≡◌, refl, Bytes, leb, ltb, if◌then◌else◌,
  arith, Bool-cases, inl, inr,
}
use stugan.Engine.Buffer.Contents.{past, ack_through-IsExact}
use stugan.Engine.Session.State.{Session}
use stugan.Engine.Session.Stream.{Held, ack, contains}
use stugan.Engine.Session.Stream.Sound.{IsSound, Balanced}

-- The acknowledgement is by a recent claim, and is news.
abbrev pub taken : Session → Bytes → ℕ → Bool
taken s handle seq = contains s.handles handle && (ltb s.acked seq && leb seq s.seq)

pub record Acked (reported : ℕ) (h : Held) (handle : Bytes) (seq : ℕ) (g : Held) : Type 0 where
  pub sound : IsSound reported g.sess
  pub balanced : Balanced h g
  pub acked_is : g.sess.acked ≡ (if taken h.sess handle seq then seq else h.sess.acked)
  pub lines_are :
      g.sess.buf.lines
      ≡ (if taken h.sess handle seq then past seq h.sess.buf.lines else h.sess.buf.lines)
  pub rest_same : g.sess ≡ record (h.sess) { buf = g.sess.buf; acked = g.sess.acked }

-- An acknowledgement from a claim that is not one of the recent ones, of a number already
-- acknowledged or not yet given, changes nothing. Any other forgets exactly the lines up to its
-- number. Either way the session stays sound and the shared counter in balance.
pub ack-Acked :
    (reported : ℕ) (h : Held) (handle : Bytes) (seq : ℕ)
    → IsSound reported h.sess
    → Acked reported h handle seq (ack h handle seq)
unfolding ack
ack-Acked reported h handle seq v = elim (Bool-cases (taken h.sess handle seq)) [
  | inl yes_taken ↦
      let go : (not (contains h.sess.handles handle)
            || (leb seq h.sess.acked || ltb h.sess.seq seq))
          ≡ false =
        ground arith in
      let hi : seq ≤ h.sess.seq = ground arith in
      let news : h.sess.acked < seq = ground arith in
      let (exact, kept, sum) = ack_through-IsExact h.sess.buf v.floor h.sess.seq seq v.buffer hi in
      rw go (record {
        sound = record {
          floor = max v.floor seq;
          buffer = exact;
          seq_fits = v.seq_fits;
          acked_le = omega arith;
          sent_le = v.sent_le;
          ever_le = v.ever_le;
          covered_le = v.covered_le;
          no_silent_loss = omega (arith, v.no_silent_loss);
          no_false_loss = omega (arith, v.no_false_loss);
        };
        balanced = omega (arith, v.buffer.fits);
        acked_is = rw yes_taken;
        lines_are = rw yes_taken kept;
        rest_same = refl;
      })
  | inr ignored ↦
      let stop : (not (contains h.sess.handles handle)
            || (leb seq h.sess.acked || ltb h.sess.seq seq))
          ≡ true =
        ground arith in
      rw stop (record {
        sound = v;
        balanced = refl;
        acked_is = rw ignored;
        lines_are = rw ignored;
        rest_same = refl;
      })
]
