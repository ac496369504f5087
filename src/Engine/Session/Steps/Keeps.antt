-- ===== src/Engine/Session/Steps/Keeps.antt =====
-- Every step keeps a session's stream sound and its backlog relayable.
use stugan.Base.{
  ℕ, ◌+◌, ◌<◌, ◌^◌, Bool, List, [], ◌∷◌, ◌≡◌, if◌then◌else◌, ◌∙◌, Bytes, Option, some, none, inl,
  inr, subst, arith, ap, length, if_cases, All, All-append, All-append_right, ltb,
}
use stugan.Engine.Buffer.{BufferedLine, LineBuffer, line_cost}
use stugan.Engine.Buffer.Contents.{total, past}
use stugan.Engine.Session.State.{Session, dial, shutdown, enqueue_write}
use stugan.Engine.Session.Stream.{Held, Env, ingest, shed_oldest, ack}
use stugan.Engine.Session.Stream.Sound.{IsSound}
use stugan.Engine.Session.Stream.Shedding.{shed_oldest-IsSound, shed_oldest-Sheds}
use stugan.Engine.Session.Stream.Accepting.{numbered_line, accept-Accepted}
use stugan.Engine.Session.Stream.Acking.{ack-Acked, taken}
use stugan.Engine.Session.Stream.Draining.{pull-IsSound}
use stugan.Engine.Session.Stream.Ingesting.{IsRelayable, Bypassed, ingest-cases}
use stugan.Engine.Session.Attach.{attach_locked, detach_locked}
use stugan.Engine.Session.Attach.Resume.{attach_locked-IsSound}
use stugan.Engine.Session.Steps.Accounts.{Account, Account-stays}
use stugan.Engine.Session.Steps.Losing.{shed_oldest-Account, accept-Account, accept-acked}
use stugan.Engine.Session.Steps.Sending.{
  pull-Account, pull-acked, ack-Account, attach_locked-Account,
}
use stugan.Engine.Session.Steps.{
  Point, with_sess, Step, ingests, sheds, acks, pulls, attaches, detaches, dials, writes, shuts,
  others, Reach, here, next,
}

-- The fields that the invariant reads.
record SameStream (s t : Session) : Type 0 where
  same_buf : t.buf ≡ s.buf
  same_seq : t.seq ≡ s.seq
  same_acked : t.acked ≡ s.acked
  same_sent : t.sent ≡ s.sent
  same_ever : t.ever_sent ≡ s.ever_sent
  same_lost : t.lost ≡ s.lost
  same_covered : t.burst_covered ≡ s.burst_covered

abbrev Clean : Env → Session → Type 0
Clean env s = All (λ (bl : BufferedLine). IsRelayable env bl.line) s.buf.lines

pub record IsGood (env : Env) (p : Point) : Type 0 where
  pub sound : IsSound p.reported p.held.sess
  -- every line of the backlog is one that the application's IRC client can parse
  pub clean : All (λ (bl : BufferedLine). IsRelayable env bl.line) p.held.sess.buf.lines
  pub acked_is : p.held.sess.acked ≡ p.acknowledged
  -- every line that is gone from the backlog, or is taken for sent, is settled
  pub account : Account p.reported p.log p.held.sess

detach_locked-SameStream : (s : Session) (l now : ℕ) → SameStream s (detach_locked s l now).0
unfolding detach_locked
detach_locked-SameStream s l now = ground arith

dial-SameStream : (s : Session) (err : Option Bytes) → SameStream s (dial s err).0
unfolding dial
dial-SameStream s none = ground arith
dial-SameStream s (some err) = ground arith

enqueue_write-SameStream :
    (pick : Bool) (s : Session) (line : Bytes) → SameStream s (enqueue_write pick s line).0
unfolding enqueue_write
enqueue_write-SameStream pick s line = ground arith

shutdown-SameStream : (s : Session) (reason : Bytes) → SameStream s (shutdown s reason).0
unfolding shutdown
shutdown-SameStream s reason = ground arith

Bypassed-SameStream : (h g : Held) → Bypassed h g → SameStream h.sess g.sess
Bypassed-SameStream h g b = ground (arith, b.same_session)

module _ (env : Env) where
  abbrev Good : ℕ → Session → Type 0
  Good reported s = IsSound reported s × Clean env s

  SameStream-Good :
      (reported : ℕ) (s t : Session) → SameStream s t → Good reported s → Good reported t
  SameStream-Good reported s t k (v, c) = (
    record {
      floor = v.floor;
      buffer = rw (k.same_buf, k.same_seq) (v.buffer);
      seq_fits = omega (arith, k.same_seq, v.seq_fits);
      acked_le = omega (arith, k.same_acked, v.acked_le);
      sent_le = omega (arith, k.same_sent, k.same_seq, v.sent_le);
      ever_le = omega (arith, k.same_ever, k.same_seq, v.ever_le);
      covered_le = omega (arith, k.same_covered, k.same_seq, v.covered_le);
      no_silent_loss = omega (arith, k.same_acked, k.same_ever, k.same_lost, v.no_silent_loss);
      no_false_loss = omega (arith, k.same_lost, v.no_false_loss);
    },
    rw k.same_buf c,
  )

  All-past :
      (P : BufferedLine → Type 0) (n : ℕ) (ls : List BufferedLine) → All P ls → All P (past n ls)
  All-past P n [] h = tt
  All-past P n (l ∷ ls) (x, h) =
      if_cases (All P) (ltb n l.seq) (λ _. (x, All-past P n ls h)) (λ _. All-past P n ls h)

  -- Only an accepted line is new, and it is relayable.
  ingest-Good :
      (reported now : ℕ) (h : Held) (raw : Bytes)
      → env.buffer_bytes < 2 ^ 63
      → h.sess.seq + 1 < 2 ^ 64
      → total h.sess.buf.lines + line_cost raw < 2 ^ 63
      → Good reported h.sess
      → Good reported (ingest env now h raw).0.sess
  ingest-Good reported now h raw small b fits (v, c) = elim (ingest-cases env now h raw) [
    | inl same ↦
        SameStream-Good reported h.sess (ingest env now h raw).0.sess
          (Bypassed-SameStream h (ingest env now h raw).0 same) (v, c)
    | inr new ↦
        let a =
          accept-Accepted reported env.buffer_bytes now h new.relayable.parsed raw v small b fits in
        let kept =
          All-append_right (λ (bl : BufferedLine). IsRelayable env bl.line) a.gone _
            (subst (All (λ (bl : BufferedLine). IsRelayable env bl.line)) a.stored (
              All-append _ h.sess.buf.lines (numbered_line now h.sess raw ∷ []) c
                (new.relayable, tt))) in
        rw new.accepted (a.sound, kept)
  ]

  ack-Good :
      (reported : ℕ) (h : Held) (handle : Bytes) (seq : ℕ)
      → Good reported h.sess
      → Good reported (ack h handle seq).sess
  ack-Good reported h handle seq (v, c) =
      let a = ack-Acked reported h handle seq v in
      (
        a.sound,
        rw a.lines_are (
            if_cases (All (λ (bl : BufferedLine). IsRelayable env bl.line))
              (taken h.sess handle seq) (λ _. All-past _ seq h.sess.buf.lines c) (λ _. c)),
      )

  shed_oldest-Good :
      (reported : ℕ) (h : Held) → Good reported h.sess → Good reported (shed_oldest h).0.sess
  shed_oldest-Good reported h (v, c) =
      let k = shed_oldest-Sheds h in
      ((shed_oldest-IsSound reported h v).0, All-append_right _ k.gone _ (subst (All _) k.splits c))

  SameStream-Account :
      (reported : ℕ) (log : List ℕ) (s t : Session)
      → SameStream s t
      → Account reported log s
      → Account reported log t
  SameStream-Account reported log s t k a =
      let len = ap (λ (b : LineBuffer). length b.lines) k.same_buf in
      Account-stays reported reported log s t (omega (arith, k.same_lost))
        (omega (arith, k.same_acked)) (omega (arith, k.same_covered))
        (omega (arith, k.same_seq, k.same_sent, k.same_ever)) a

  ingest-Account :
      (reported : ℕ) (log : List ℕ) (now : ℕ) (h : Held) (raw : Bytes)
      → h.sess.seq + 1 < 2 ^ 64
      → total h.sess.buf.lines + line_cost raw < 2 ^ 63
      → IsSound reported h.sess
      → Account reported log h.sess
      → Account reported log (ingest env now h raw).0.sess
  ingest-Account reported log now h raw b fits v a = elim (ingest-cases env now h raw) [
    | inl same ↦
        SameStream-Account reported log h.sess (ingest env now h raw).0.sess
          (Bypassed-SameStream h (ingest env now h raw).0 same) a
    | inr new ↦
        rw new.accepted
          (accept-Account reported env.buffer_bytes log now h new.relayable.parsed raw v b fits a)
  ]

  ingest-acked :
      (reported now : ℕ) (h : Held) (raw : Bytes)
      → env.buffer_bytes < 2 ^ 63
      → h.sess.seq + 1 < 2 ^ 64
      → total h.sess.buf.lines + line_cost raw < 2 ^ 63
      → IsSound reported h.sess
      → (ingest env now h raw).0.sess.acked ≡ h.sess.acked
  ingest-acked reported now h raw small b fits v = elim (ingest-cases env now h raw) [
    | inl same ↦ (Bypassed-SameStream h (ingest env now h raw).0 same).same_acked
    | inr new ↦
        rw new.accepted
          (accept-acked reported env.buffer_bytes now h new.relayable.parsed raw v small b fits)
  ]

  -- A step that moves none of the fields that the invariant reads.
  still :
      (p : Point) (t : Session)
      → SameStream p.held.sess t
      → IsGood env p
      → IsGood env (with_sess p t)
  still p t k g =
      let r = SameStream-Good p.reported p.held.sess t k (g.sound, g.clean) in
      record {
        sound = r.0;
        clean = r.1;
        acked_is = k.same_acked ∙ g.acked_is;
        account = SameStream-Account p.reported p.log p.held.sess t k g.account;
      }

  -- Every step keeps the session sound, its backlog relayable and its account closed.
  pub Step-IsGood :
      {p q : Point} → env.buffer_bytes < 2 ^ 63 → Step env p q → IsGood env p → IsGood env q
  Step-IsGood small (ingests p now raw b fits) g =
      let r = ingest-Good p.reported now p.held raw small b fits (g.sound, g.clean) in
      record {
        sound = r.0;
        clean = r.1;
        acked_is = ingest-acked p.reported now p.held raw small b fits g.sound ∙ g.acked_is;
        account = ingest-Account p.reported p.log now p.held raw b fits g.sound g.account;
      }
  Step-IsGood small (sheds p) g =
      let r = shed_oldest-Good p.reported p.held (g.sound, g.clean) in
      record {
        sound = r.0;
        clean = r.1;
        acked_is = ap (λ (s : Session). s.acked) (shed_oldest-Sheds p.held).rest_same ∙ g.acked_is;
        account = shed_oldest-Account p.reported p.log p.held g.sound g.account;
      }
  Step-IsGood small (acks p handle seq) g =
      let r = ack-Good p.reported p.held handle seq (g.sound, g.clean) in
      record {
        sound = r.0;
        clean = r.1;
        acked_is =
            (ack-Acked p.reported p.held handle seq g.sound).acked_is
            ∙ ap (λ n. if taken p.held.sess handle seq then seq else n) g.acked_is;
        account = ack-Account p.reported p.log p.held handle seq g.sound g.account;
      }
  Step-IsGood small (pulls p l limit) g =
      let (v, e) = pull-IsSound p.reported p.held.sess l limit g.sound in
      record {
        sound = v;
        clean = rw e g.clean;
        acked_is = pull-acked p.reported p.held.sess l limit g.sound ∙ g.acked_is;
        account = pull-Account p.reported p.log p.held.sess l limit g.sound g.account;
      }
  Step-IsGood small (attaches p l handle now) g = record {
    sound = attach_locked-IsSound p.reported p.held.sess l handle now g.sound;
    clean = unfold attach_locked in g.clean;
    acked_is = unfold attach_locked in g.acked_is;
    account = attach_locked-Account p.reported p.log p.held.sess l handle now g.account;
  }
  Step-IsGood small (detaches p l now) g = still p _ (detach_locked-SameStream p.held.sess l now) g
  Step-IsGood small (dials p err) g = still p _ (dial-SameStream p.held.sess err) g
  Step-IsGood small (writes p line) g =
      still p _ (enqueue_write-SameStream env.pick_queue p.held.sess line) g
  Step-IsGood small (shuts p reason) g = still p _ (shutdown-SameStream p.held.sess reason) g
  Step-IsGood small (others p used) g = record {
    acked_is = g.acked_is;
    sound = g.sound;
    clean = g.clean;
    account = g.account;
  }

  -- So does every run.
  pub Reach-IsGood :
      {p q : Point} → env.buffer_bytes < 2 ^ 63 → IsGood env p → Reach env p q → IsGood env q
  Reach-IsGood small g here = g
  Reach-IsGood small g (next r st) = Step-IsGood small st (Reach-IsGood small g r)
