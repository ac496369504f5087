-- ===== src/Engine/Session/Steps/Fresh.antt =====
-- Runs of a session from the start.
use stugan.Base.{ℕ, [], ◌<◌, ◌^◌, refl, Bytes, arith}
use stugan.EngineProto.{Frame}
use stugan.Engine.Session.State.{new_session}
use stugan.Engine.Session.Stream.{Env}
use stugan.Engine.Session.Steps.{Point, Reach}
use stugan.Engine.Session.Steps.Keeps.{IsGood, Reach-IsGood}

-- a session as `handleConnect` makes it
abbrev pub fresh : ℕ → ℕ → Bytes → Frame → Bytes → ℕ → Point
fresh used l instance_id f key now = record {
  reported = 0;
  log = [];
  acknowledged = 0;
  held = record { used = used; sess = new_session l instance_id f key now };
}

fresh-IsGood :
    (env : Env) (used l : ℕ) (instance_id : Bytes) (f : Frame) (key : Bytes) (now : ℕ)
    → IsGood env (fresh used l instance_id f key now)
unfolding new_session
fresh-IsGood env used l instance_id f key now = record {
  sound = record {
    floor = 0;
    buffer = record { run = refl; bytes_are = refl; fits = omega arith };
    seq_fits = omega arith;
    acked_le = omega arith;
    sent_le = omega arith;
    ever_le = omega arith;
    covered_le = omega arith;
    no_silent_loss = omega arith;
    no_false_loss = omega arith;
  };
  clean = tt;
  acked_is = refl;
  account = record { misses = []; counted = refl; settled = λ k pos le. absurd (omega arith) };
}

-- After any run of a new session, with numbers below 2 ^ 64 and bytes below 2 ^ 63: the backlog
-- carries consecutive numbers up to the last one given, and its byte count is exact; every line that is gone
-- from it went out to the application before, or is not past the last number that the application
-- acknowledged, or is not past `burst_covered`, the mark of the recorded registration, or is one of as many
-- numbers as lines are counted as lost; no more lines than are gone are counted; and every line of the backlog
-- parses, is not blank and is not one that the engine answers itself.
pub fresh-run-IsGood :
    (env : Env) (used l : ℕ) (instance_id : Bytes) (f : Frame) (key : Bytes) (now : ℕ) {q : Point}
    → env.buffer_bytes < 2 ^ 63
    → Reach env (fresh used l instance_id f key now) q
    → IsGood env q
fresh-run-IsGood env used l instance_id f key now small r =
    Reach-IsGood env small (fresh-IsGood env used l instance_id f key now) r
