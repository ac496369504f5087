-- ===== src/Engine/Session/Steps/Sending.antt =====
-- What a pull sends is in the log; an acknowledgement and a claim settle what they pass over.
use stugan.Base.{
  ℕ, zero, suc, ◌+◌, ◌-◌, ◌≤◌, ◌<◌, max, min, Bool, true, false, not, ◌&&◌, List, [], ◌∷◌, ◌++◌,
  ◌≡◌, inl, inr, refl, ap, sym, subst, ◌∙◌, Bytes, length, length-drop, take, map, str_eq,
  str_eq_refl, ◌==◌, ltb, arith, Bool-cases, if◌then◌else◌,
}
use stugan.EngineProto.{Frame, set_line}
use stugan.EngineProto.Op
use stugan.Engine.Buffer.{BufferedLine}
use stugan.Engine.Buffer.Contents.{Consecutive, Consecutive-length, past, drop-past}
use stugan.Engine.Session.State.{Session, held_by, is_dialing}
use stugan.Engine.Session.Stream.{Held, line_frame, pull, ack}
use stugan.Engine.Session.Stream.Sound.{IsSound}
use stugan.Engine.Session.Stream.Delivery.{
  owed, advanced, pull-Pulls, last_seq-owed, owed-Consecutive,
}
use stugan.Engine.Session.Stream.Draining.{behind_pull, pull-idle}
use stugan.Engine.Session.Stream.Acking.{ack-Acked, taken}
use stugan.Engine.Session.Attach.{attach_locked}
use stugan.Engine.Session.Steps.{line_seqs}
use stugan.Engine.Session.Steps.Accounts.{
  Account, IsSettled, IsIn, reach, Account-stays, Account-moves, IsIn-append_left,
  IsIn-append_right,
}

line_seqs-append : (fs gs : List Frame) → line_seqs (fs ++ gs) ≡ line_seqs fs ++ line_seqs gs
line_seqs-append [] gs = refl
line_seqs-append (f ∷ fs) gs = elim (Bool-cases (str_eq f.op Op.line)) [
  | inl e ↦ rw e (ap (λ (ns : List ℕ). f.seq ∷ ns) (line_seqs-append fs gs))
  | inr e ↦ rw e (line_seqs-append fs gs)
]

set_line-rest :
    (f : Frame) (line : Bytes) → ((set_line f line).op ≡ f.op) × ((set_line f line).seq ≡ f.seq)
unfolding set_line
set_line-rest f line = ground arith

line_seqs-line :
    (f : Frame) (fs : List Frame)
    → str_eq f.op Op.line ≡ true
    → line_seqs (f ∷ fs) ≡ f.seq ∷ line_seqs fs
line_seqs-line f fs e = rw e refl

line_seqs-line_frame :
    (handle : Bytes) (bl : BufferedLine) (fs : List Frame)
    → line_seqs (line_frame handle bl ∷ fs) ≡ bl.seq ∷ line_seqs fs
unfolding line_frame
line_seqs-line_frame handle bl fs =
    let (op, seq) = set_line-rest _ bl.line in
    line_seqs-line (line_frame handle bl) fs (ap (λ o. str_eq o Op.line) op ∙ str_eq_refl Op.line)
    ∙ ap (λ (n : ℕ). n ∷ line_seqs fs) seq

-- The first `n` lines carry the numbers behind the floor.
sent_numbers :
    (handle : Bytes) (k n floor top : ℕ) (ls : List BufferedLine)
    → Consecutive floor ls top
    → floor < k
    → k ≤ floor + min n (length ls)
    → IsIn k (line_seqs (map (line_frame handle) (take n ls)))
sent_numbers handle k zero floor top ls run low high = absurd (omega arith)
sent_numbers handle k (suc n) floor top [] run low high = absurd (omega arith)
sent_numbers handle k (suc n) floor top (l ∷ ls) run low high =
    rw (line_seqs-line_frame handle l (map (line_frame handle) (take n ls)))
      (elim (Bool-cases (k == l.seq)) [
        | inl e ↦ inl (ground (arith, e))
        | inr e ↦ inr (
            sent_numbers handle k n (suc floor) top ls run.1 (ground (arith, e, run.0))
              (omega arith))
      ])

-- A batch of lines goes out and into the log.
advanced-Account :
    (reported : ℕ) (log : List ℕ) (s : Session) (limit : ℕ) (out more : List Frame)
    (finished : Bool)
    → IsSound reported s
    → out ≡ (s.ctrl ++ map (line_frame s.handle) (take limit (owed s))) ++ more
    → Account reported log s
    → Account reported (log ++ line_seqs out) (record (advanced s limit) { finished = finished })
unfolding advanced
advanced-Account reported log s limit out more finished v frames a = record {
  misses = a.misses;
  counted = a.counted;
  settled = λ k pos le. elim (Bool-cases (ltb (reach s) k)) [
    | inr old ↦ logged k (a.settled k pos (ground (arith, old)))
    | inl new ↦
        let at = last_seq-owed reported s v limit in
        let len = Consecutive-length v.floor s.buf.lines s.seq v.buffer.run in
        let there =
          sent_numbers s.handle k limit (max v.floor s.sent) s.seq (owed s)
            (owed-Consecutive reported s v) (ground (arith, new)) (ground (arith, new)) in
        inr (inr (inl (in_log k there)))
  ];
}
  where
    lines : List Frame
    lines = map (line_frame s.handle) (take limit (owed s))

    in_log : (k : ℕ) → IsIn k (line_seqs lines) → IsIn k (log ++ line_seqs out)
    in_log k there = IsIn-append_right k log (line_seqs out) (
        subst (λ fs. IsIn k (line_seqs fs)) (sym frames)
          (subst (IsIn k) (sym (line_seqs-append (s.ctrl ++ lines) more)) (
            IsIn-append_left k (line_seqs (s.ctrl ++ lines)) (line_seqs more) (
              subst (IsIn k) (sym (line_seqs-append s.ctrl lines))
                (IsIn-append_right k (line_seqs s.ctrl) (line_seqs lines) there)))))

    logged : (k : ℕ) → IsSettled s log a.misses k → IsSettled s (log ++ line_seqs out) a.misses k
    logged k (inl e) = inl e
    logged k (inr (inl e)) = inr (inl e)
    logged k (inr (inr (inl e))) = inr (inr (inl (IsIn-append_left k log (line_seqs out) e)))
    logged k (inr (inr (inr e))) = inr (inr (inr e))

-- Whoever pulls, and in whatever state: what counts as sent afterwards is settled.
pub pull-Account :
    (reported : ℕ) (log : List ℕ) (s : Session) (l limit : ℕ)
    → IsSound reported s
    → Account reported log s
    → Account reported (log ++ line_seqs (pull s l limit).1.out) (pull s l limit).0
unfolding advanced
pull-Account reported log s l limit v a =
    elim (Bool-cases (held_by s l && not (is_dialing s.state))) [
      | inr idle ↦
          let (ctrl, finished, same) = pull-idle s l limit idle in
          rw same (
            Account-moves reported reported log (line_seqs (pull s l limit).1.out) s
              (record s { ctrl = ctrl; finished = finished }) refl (omega arith) (omega arith)
              (omega arith) a)
      | inl live ↦
          let q = pull-Pulls reported s l limit v (ground (arith, live)) (ground (arith, live)) in
          let p = (pull s l limit).1 in
          behind_pull (Account reported (log ++ line_seqs p.out)) s (pull s l limit).0 limit p q
            (advanced-Account reported log s limit p.out _ s.finished v q.frames a)
            (advanced-Account reported log s limit p.out _ true v q.frames a)
    ]

length-past :
    (n floor : ℕ) (ls : List BufferedLine) (top : ℕ)
    → Consecutive floor ls top
    → length (past n ls) ≡ length ls - (n - floor)
length-past n floor ls top run =
    ap length (sym (drop-past n floor ls top run))
    ∙ length-drop (min (length ls) (n - floor)) ls
    ∙ omega arith

ap_if :
    {A B : Type 0} (f : A → B) (b : Bool) (x y : A)
    → f (if b then x else y) ≡ (if b then f x else f y)
ap_if f true x y = refl
ap_if f false x y = refl

pub ack-Account :
    (reported : ℕ) (log : List ℕ) (h : Held) (handle : Bytes) (seq : ℕ)
    → IsSound reported h.sess
    → Account reported log h.sess
    → Account reported log (ack h handle seq).sess
ack-Account reported log h handle seq v a =
    let k = ack-Acked reported h handle seq v in
    let run = v.buffer.run in
    let len = Consecutive-length v.floor h.sess.buf.lines h.sess.seq run in
    let left = length-past seq v.floor h.sess.buf.lines h.sess.seq run in
    let g = (ack h handle seq).sess in
    let same_seq = ap (λ (s : Session). s.seq) k.rest_same in
    let same_sent = ap (λ (s : Session). s.sent) k.rest_same in
    let same_ever = ap (λ (s : Session). s.ever_sent) k.rest_same in
    let same_lost = ap (λ (s : Session). s.lost) k.rest_same in
    let same_covered = ap (λ (s : Session). s.burst_covered) k.rest_same in
    let lines : length g.buf.lines ≡ (
        if taken h.sess handle seq
        then length (past seq h.sess.buf.lines)
        else length h.sess.buf.lines) =
      ap length k.lines_are ∙ ap_if length (taken h.sess handle seq) _ _ in
    Account-stays reported reported log h.sess g (omega arith) (ground (arith, k.acked_is))
      (omega arith) (ground (arith, k.acked_is, lines)) a

pub attach_locked-Account :
    (reported : ℕ) (log : List ℕ) (s : Session) (l : ℕ) (handle : Bytes) (now : ℕ)
    → Account reported log s
    → Account (reported + s.lost) log (attach_locked s l handle now)
unfolding attach_locked
attach_locked-Account reported log s l handle now a =
    Account-stays reported (reported + s.lost) log s (attach_locked s l handle now) (omega arith)
      (omega arith) (omega arith) (omega arith) a

pub pull-acked :
    (reported : ℕ) (s : Session) (l limit : ℕ)
    → IsSound reported s
    → (pull s l limit).0.acked ≡ s.acked
unfolding advanced
pull-acked reported s l limit v = elim (Bool-cases (held_by s l && not (is_dialing s.state))) [
  | inr idle ↦
      let (ctrl, finished, same) = pull-idle s l limit idle in ap (λ (s : Session). s.acked) same
  | inl live ↦
      let q = pull-Pulls reported s l limit v (ground (arith, live)) (ground (arith, live)) in
      behind_pull (λ (t : Session). t.acked ≡ s.acked) s (pull s l limit).0 limit (pull s l limit).1
        q refl refl
]
