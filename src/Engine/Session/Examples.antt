-- ===== src/Engine/Session/Examples.antt =====
-- Tests of a session, and its theorems at concrete inputs.
use stugan.Base.{
  suc, ◌+◌, ◌<◌, ◌^◌, true, [], ◌∷◌, ◌++◌, ◌≡◌, refl, Bytes, codes, str_eq, none, length, map, ap,
  arith, ◌↔◌, ◌⊎◌,
}
use stugan.EngineProto.{Frame, blank}
use stugan.Engine.IrcLine.{
  IrcLine, parse_line, params_of, param, last, fold, source_nick, end_of_burst, is_burst_command,
}
use stugan.Go.Strings.{
  starts_with_byte, index_byte, index_either, trim_left, to_upper, before, behind, equal_fold,
  split,
}
use stugan.Go.Space.{trim_space}
use stugan.Engine.Buffer.{push, line_cost}
use stugan.Engine.Session.Track.{track, add_channel}
use stugan.Engine.Buffer.Contents.{total}
use stugan.Engine.Session.State.{
  opened, new_session, dial, is_open, is_link, is_dialing, enqueue_write,
}
use stugan.Engine.Session.Stream.{
  Env, ingest, pull, accept, enter, shed, ack, line_frame, shed_oldest,
}
use stugan.Engine.Session.Stream.Accepting.{Accepted, accept-Accepted}
use stugan.Engine.Session.Stream.Shedding.{shed_oldest-IsSound}
use stugan.Engine.Session.Stream.Ingesting.{Bypassed, Entered, ingest-cases}
use stugan.Engine.Session.Stream.Sound.{IsSound, Balanced}
use stugan.Engine.Session.Stream.Delivery.{Pulls, pull-Pulls, owed, owed_lem}
use stugan.Engine.Session.Stream.Draining.{drain, drain_lem, closing}
use stugan.Engine.Session.Stream.Acking.{Acked, ack-Acked}
use stugan.Engine.Session.Steps.{Point, Reach, here, next, ingests, dials, pulls, sheds, line_seqs}
use stugan.Engine.Buffer.{after, first_after, drop_oldest, count_after}
use stugan.Go.Search.{search}
use stugan.EngineProto.{set_line}
use stugan.Go.Utf8.{valid_string}
use stugan.Engine.Session.Stream.{drop_oldest_locked, line_frame}
use stugan.Engine.Session.State.{is_closed}
use stugan.Engine.Session.Steps.Keeps.{IsGood}
use stugan.Engine.Session.Steps.Fresh.{fresh, fresh-run-IsGood}
use stugan.Engine.Session.Attach.{attach_locked}
use stugan.Engine.Session.Attach.Resume.{attach-drain, attached_frame, needed}

abbrev env : Env
env = record { unicode = λ s. s; buffer_bytes = 4096; pick_queue = true }

abbrev connect : Frame
connect = record blank { id = codes "alice/net"; handle = codes "h1"; addr = codes "irc:6667" }

abbrev start : Point
start = fresh 0 7 (codes "app") connect (codes "app/alice/net") 1000

abbrev dialled : Point
dialled = record start { held = record (start.held) { sess = (dial start.held.sess none).0 } }

-- The line names what a run evaluates, so that a test says only `unfolding heard`.
heard : Point → Bytes → Point
unfolding new_session dial ingest parse_line starts_with_byte index_byte index_either trim_left
    trim_space str_eq to_upper before behind is_open accept enter shed track push line_cost
    params_of param last fold source_nick end_of_burst is_burst_command equal_fold split add_channel
heard p raw = record p { held = (ingest env 2000 p.held raw).0 }

abbrev one_line : Point
one_line = heard dialled (codes ":srv 001 bob :hi")

abbrev two_lines : Point
two_lines = heard one_line (codes ":bob!u@h JOIN #go")

one_line_is :
    (one_line.held.sess.seq ≡ 1)
    × (total one_line.held.sess.buf.lines ≡ 48)
    × (one_line.held.sess.nick ≡ codes "bob")
unfolding heard
one_line_is = (refl, refl, refl)

two_lines_is :
    (two_lines.held.sess.state ≡ opened)
    × (two_lines.held.sess.acked ≡ 0)
    × (two_lines.held.sess.burst_covered ≡ 2)
    × (two_lines.held.sess.channels ≡ codes "#go" ∷ [])
    × (length two_lines.held.sess.buf.lines ≡ 2)
unfolding heard
two_lines_is = (refl, refl, refl, refl, refl)

-- A PING is answered and does not enter the stream.
ping_is_answered :
    ((heard two_lines (codes "PING :x")).held.sess.write_q ≡ codes "PONG :x" ∷ [])
    × ((heard two_lines (codes "PING :x")).held.sess.seq ≡ 2)
unfolding heard enqueue_write
ping_is_answered = (refl, refl)

dialled_fits :
    (dialled.held.sess.seq + 1 < 2 ^ 64)
    × (total dialled.held.sess.buf.lines + line_cost (codes ":srv 001 bob :hi") < 2 ^ 63)
unfolding new_session dial line_cost
dialled_fits = omega arith

one_line_fits :
    (one_line.held.sess.seq + 1 < 2 ^ 64)
    × (total one_line.held.sess.buf.lines + line_cost (codes ":bob!u@h JOIN #go") < 2 ^ 63)
unfolding line_cost
one_line_fits = omega (arith, one_line_is.0, one_line_is.1)

run : Reach env start two_lines
unfolding heard
run =
    next
      (next (next here (dials start none))
        (ingests dialled 2000 (codes ":srv 001 bob :hi") dialled_fits.0 dialled_fits.1))
      (ingests one_line 2000 (codes ":bob!u@h JOIN #go") one_line_fits.0 one_line_fits.1)

-- The first line goes out, and then the budget takes it, which is no loss.
abbrev sent_one : Point
sent_one = record two_lines {
  log = two_lines.log ++ line_seqs (pull two_lines.held.sess 7 1).1.out;
  held = record (two_lines.held) { sess = (pull two_lines.held.sess 7 1).0 };
}

abbrev shed_one : Point
shed_one = record sent_one { held = (shed_oldest sent_one.held).0 }

shed_one_is : (shed_one.log ≡ 1 ∷ []) × (shed_one.held.sess.lost ≡ 0)
unfolding heard pull after first_after search is_link is_dialing line_frame set_line str_eq
    shed_oldest drop_oldest_locked drop_oldest count_after is_closed valid_string
shed_one_is = (refl, refl)

fresh-run-IsGood_example : IsGood env shed_one
fresh-run-IsGood_example =
    fresh-run-IsGood env 0 7 (codes "app") connect (codes "app/alice/net") 1000 (omega arith)
      (next (next run (pulls two_lines 7 1)) (sheds sent_one))

two_lines-IsSound : IsSound 0 two_lines.held.sess
unfolding heard
two_lines-IsSound =
    (fresh-run-IsGood env 0 7 (codes "app") connect (codes "app/alice/net") 1000 (omega arith)
      run).sound

attach-drain_example :
    (drain 3 9 1 (attach_locked two_lines.held.sess 9 (codes "h2") 3000)).1
    ≡ attached_frame two_lines.held.sess (codes "h2") 3000
      ∷ map (line_frame (codes "h2")) (needed two_lines.held.sess)
unfolding heard
attach-drain_example =
    attach-drain 2 0 9 1 3000 two_lines.held.sess (codes "h2") two_lines-IsSound refl (omega arith)
      (omega arith)

pull-Pulls_example :
    Pulls two_lines.held.sess 1 (pull two_lines.held.sess 7 1).0 (pull two_lines.held.sess 7 1).1
unfolding heard is_link is_dialing
pull-Pulls_example = pull-Pulls 0 two_lines.held.sess 7 1 two_lines-IsSound refl refl

drain_lem_example :
    (drain 3 7 1 two_lines.held.sess).1
    ≡ two_lines.held.sess.ctrl
      ++ (map (line_frame two_lines.held.sess.handle) (owed two_lines.held.sess)
          ++ closing two_lines.held.sess)
unfolding heard is_link is_dialing
drain_lem_example =
    drain_lem 2 0 7 1 two_lines.held.sess two_lines-IsSound refl refl (omega arith)
      (omega (arith, ap length (owed_lem 0 two_lines.held.sess two_lines-IsSound)))

ack-Acked_example : Acked 0 two_lines.held (codes "h1") 1 (ack two_lines.held (codes "h1") 1)
ack-Acked_example = ack-Acked 0 two_lines.held (codes "h1") 1 two_lines-IsSound

abbrev join_line : IrcLine
join_line = record { nick = codes "eve"; cmd = codes "JOIN"; params = codes "#go" ∷ [] }

accept-Accepted_example :
    Accepted 0 100 2500 two_lines.held
      (codes ":eve JOIN #go")
      (accept 100 2500 two_lines.held join_line (codes ":eve JOIN #go"))
unfolding heard
accept-Accepted_example =
    accept-Accepted 0 100 2500 two_lines.held join_line (codes ":eve JOIN #go") two_lines-IsSound
      (omega arith) (omega arith) (omega arith)

shed_oldest-IsSound_example :
    IsSound 0 (shed_oldest two_lines.held).0.sess
    × Balanced two_lines.held (shed_oldest two_lines.held).0
    × (((shed_oldest two_lines.held).1 ≡ true) ↔ (1 < length two_lines.held.sess.buf.lines))
    × ((shed_oldest two_lines.held).1 ≡ true
        → length two_lines.held.sess.buf.lines
          ≡ suc (length (shed_oldest two_lines.held).0.sess.buf.lines))
shed_oldest-IsSound_example = shed_oldest-IsSound 0 two_lines.held two_lines-IsSound

ingest-cases_example :
    Bypassed two_lines.held (ingest env 2500 two_lines.held (codes "PING :x")).0
    ⊎ Entered env 2500 two_lines.held
        (codes "PING :x")
        (ingest env 2500 two_lines.held (codes "PING :x")).0
        (ingest env 2500 two_lines.held (codes "PING :x")).1
ingest-cases_example = ingest-cases env 2500 two_lines.held (codes "PING :x")
