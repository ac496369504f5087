-- ===== src/Engine/Session/Steps.antt =====
-- The life of a session as a relation: whatever the server, the links, the budget and the
-- application do to it, in any order. (Being forgotten is the end of a session and no step.)
pub mod Accounts
pub mod Losing
pub mod Sending
pub mod Keeps
pub mod Fresh
use stugan.Base.{ℕ, ◌+◌, ◌<◌, ◌^◌, Option, Bytes, List, [], ◌∷◌, ◌++◌, str_eq, if◌then◌else◌}
use stugan.EngineProto.{Frame}
use stugan.EngineProto.Op
use stugan.Engine.Buffer.{line_cost}
use stugan.Engine.Buffer.Contents.{total}
use stugan.Engine.Session.State.{Session, dial, shutdown, enqueue_write}
use stugan.Engine.Session.Stream.{Held, Env, ingest, shed_oldest, ack, pull}
use stugan.Engine.Session.Stream.Acking.{taken}
use stugan.Engine.Session.Attach.{attach_locked, detach_locked}

-- the numbers of the lines among these frames
abbrev pub line_seqs : List Frame → List ℕ
line_seqs [] = []
line_seqs (f ∷ fs) = let rest = line_seqs fs in if str_eq f.op Op.line then f.seq ∷ rest else rest

-- A session, and what the application has seen of it: `reported` counts the lost lines that attached frames
-- have told it of, `log` are the numbers of the lines that went out to it, and `acknowledged` is the last number
-- that it acknowledged by a claim that may, of those that were given and are past the one before.
pub record Point : Type 0 where
  pub reported : ℕ
  pub log : List ℕ
  pub acknowledged : ℕ
  pub held : Held

abbrev with_sess : Point → Session → Point
with_sess p s = record p { held = record (p.held) { sess = s } }

pub data Step (env : Env) : Point → Point → Type 0 where
  ingests :
      (p : Point) (now : ℕ) (raw : Bytes)
      → p.held.sess.seq + 1 < 2 ^ 64
      → total p.held.sess.buf.lines + line_cost raw < 2 ^ 63
      → Step env p (record p { held = (ingest env now p.held raw).0 })
  sheds : (p : Point) → Step env p (record p { held = (shed_oldest p.held).0 })
  acks :
      (p : Point) (handle : Bytes) (seq : ℕ)
      → Step env p (record p {
        acknowledged = if taken p.held.sess handle seq then seq else p.acknowledged;
        held = ack p.held handle seq;
      })
  pulls :
      (p : Point) (l limit : ℕ)
      → Step env p (record p {
        log = p.log ++ line_seqs (pull p.held.sess l limit).1.out;
        held = record (p.held) { sess = (pull p.held.sess l limit).0 };
      })
  attaches :
      (p : Point) (l : ℕ) (handle : Bytes) (now : ℕ)
      → Step env p (record p {
        reported = p.reported + p.held.sess.lost;
        held = record (p.held) { sess = attach_locked p.held.sess l handle now };
      })
  detaches : (p : Point) (l now : ℕ) → Step env p (with_sess p (detach_locked p.held.sess l now).0)
  dials : (p : Point) (err : Option Bytes) → Step env p (with_sess p (dial p.held.sess err).0)
  writes :
      (p : Point) (line : Bytes)
      → Step env p (with_sess p (enqueue_write env.pick_queue p.held.sess line).0)
  shuts : (p : Point) (reason : Bytes) → Step env p (with_sess p (shutdown p.held.sess reason).0)
  -- another session moves the shared counter
  others : (p : Point) (used : ℕ) → Step env p (record p { held = record (p.held) { used = used } })

pub data Reach (env : Env) (p : Point) : Point → Type 0 where
  here : Reach env p p
  next : {q r : Point} → Reach env p q → Step env q r → Reach env p r
