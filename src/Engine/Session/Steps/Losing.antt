-- ===== src/Engine/Session/Steps/Losing.antt =====
-- Shedding counts every line that it takes from the application.
use stugan.Base.{
  ℕ, suc, ◌+◌, ◌<◌, ◌^◌, List, [], ◌∷◌, ◌≡◌, inl, inr, ap, Bytes, length, length-append, ltb, leb,
  arith, Bool-cases, Bool, if_cases, ◌∙◌,
}
use stugan.Engine.IrcLine.{IrcLine}
use stugan.Engine.Buffer.{BufferedLine, line_cost}
use stugan.Engine.Buffer.Contents.{total, Consecutive, Consecutive-length}
use stugan.Engine.Session.State.{Session}
use stugan.Engine.Session.Stream.{Held, drop_oldest_locked, shed_oldest, enter, accept}
use stugan.Engine.Session.Stream.Sound.{IsSound, dropped, cons_of_pos, drop_oldest_locked-cons}
use stugan.Engine.Session.Stream.Shedding.{shed-keeps, shed-Shed}
use stugan.Engine.Session.Stream.Accepting.{
  numbered_line, enter-marks, enter-lines, enter-seq, enter-IsSound,
}
use stugan.Engine.Session.Steps.Accounts.{Account, IsSettled, reach, Account-stays}

one_more :
    (s : Session) (log misses : List ℕ) (n k : ℕ)
    → IsSettled s log misses k
    → IsSettled s log (n ∷ misses) k
one_more s log misses n k (inl e) = inl e
one_more s log misses n k (inr (inl e)) = inr (inl e)
one_more s log misses n k (inr (inr (inl e))) = inr (inr (inl e))
one_more s log misses n k (inr (inr (inr e))) = inr (inr (inr (inr e)))

-- The oldest line goes: it had gone out or been taken for sent, or it is counted.
dropped-Account :
    (reported : ℕ) (log : List ℕ) (h : Held) (l : BufferedLine) (ls : List BufferedLine)
    → h.sess.buf.lines ≡ l ∷ ls
    → IsSound reported h.sess
    → Account reported log h.sess
    → Account reported log (dropped h l ls).sess
unfolding dropped
dropped-Account reported log h l ls e v a =
    let s = h.sess in
    let run = Consecutive-length v.floor s.buf.lines s.seq v.buffer.run in
    let len : length s.buf.lines ≡ suc (length ls) = ap length e in
    let cut : Consecutive v.floor (l ∷ ls) s.seq = rw e at v.buffer.run in
    elim (Bool-cases (ltb s.ever_sent l.seq)) [
      | inr sent ↦ rw sent (record {
        misses = a.misses;
        counted = a.counted;
        settled = λ k pos le. a.settled k pos (ground (arith, cut.0));
      })
      | inl unsent ↦ rw unsent (record {
        misses = l.seq ∷ a.misses;
        counted = omega (arith, a.counted, v.no_false_loss, v.seq_fits);
        settled = λ k pos le. elim (Bool-cases (ltb (reach s) k)) [
          | inl new ↦ inr (inr (inr (inl (ground (arith, cut.0)))))
          | inr old ↦ one_more s log a.misses l.seq k (a.settled k pos (ground (arith, old)))
        ];
      })
    ]

drop_oldest_locked-Account :
    (reported : ℕ) (log : List ℕ) (h : Held)
    → 0 < length h.sess.buf.lines
    → IsSound reported h.sess
    → Account reported log h.sess
    → Account reported log (drop_oldest_locked h).sess
drop_oldest_locked-Account reported log h n v a =
    let (l, ls, e) = cons_of_pos h.sess.buf.lines n in
    rw (drop_oldest_locked-cons h l ls e) (dropped-Account reported log h l ls e v a)

pub shed_oldest-Account :
    (reported : ℕ) (log : List ℕ) (h : Held)
    → IsSound reported h.sess
    → Account reported log h.sess
    → Account reported log (shed_oldest h).0.sess
unfolding shed_oldest
shed_oldest-Account reported log h v a =
    if_cases {A = Held × Bool} (λ r. Account reported log r.0.sess)
      (leb (length h.sess.buf.lines) 1) (λ _. a)
      (λ many. drop_oldest_locked-Account reported log h (ground (arith, many)) v a)

enter-Account :
    (reported : ℕ) (log : List ℕ) (now : ℕ) (h : Held) (l : IrcLine) (raw : Bytes)
    → IsSound reported h.sess
    → h.sess.seq + 1 < 2 ^ 64
    → Account reported log h.sess
    → Account reported log (enter now h l raw).sess
enter-Account reported log now h l raw v b a =
    let (acked, sent, ever, lost, covered) = enter-marks reported now h l raw v b in
    let next = enter-seq now h l raw b in
    let len =
      ap length (enter-lines now h l raw b)
      ∙ length-append h.sess.buf.lines (numbered_line now h.sess raw ∷ []) in
    Account-stays reported reported log h.sess (enter now h l raw).sess (omega arith) (omega arith)
      covered (omega arith) a

pub accept-Account :
    (reported limit : ℕ) (log : List ℕ) (now : ℕ) (h : Held) (l : IrcLine) (raw : Bytes)
    → IsSound reported h.sess
    → h.sess.seq + 1 < 2 ^ 64
    → total h.sess.buf.lines + line_cost raw < 2 ^ 63
    → Account reported log h.sess
    → Account reported log (accept limit now h l raw).sess
unfolding accept
accept-Account reported limit log now h l raw v b fits a =
    shed-keeps (λ g. Account reported log g.sess) reported (drop_oldest_locked-Account reported log)
      limit (enter now h l raw) (enter-IsSound reported now h l raw v b fits)
      (enter-Account reported log now h l raw v b a)

pub accept-acked :
    (reported limit now : ℕ) (h : Held) (l : IrcLine) (raw : Bytes)
    → IsSound reported h.sess
    → limit < 2 ^ 63
    → h.sess.seq + 1 < 2 ^ 64
    → total h.sess.buf.lines + line_cost raw < 2 ^ 63
    → (accept limit now h l raw).sess.acked ≡ h.sess.acked
unfolding accept
accept-acked reported limit now h l raw v small b fits =
    let entered = enter-IsSound reported now h l raw v b fits in
    let shed = shed-Shed reported limit (enter now h l raw) small entered in
    ap (λ (s : Session). s.acked) shed.sheds.rest_same ∙ (enter-marks reported now h l raw v b).0
