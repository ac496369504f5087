-- ===== src/EngineLink/Session/Examples.antt =====
-- A connection that is taken over from an older process: the replay, the marker and what follows.
use stugan.Base.{ℕ, Bool, true, some, List, [], ◌∷◌, ◌++◌, Bytes, codes, ◌≡◌, refl, str_eq}
use stugan.Go.Strings.{
  split, trim_right, equal_fold, before, behind, last_index_byte, trim_prefix_byte,
}
use stugan.EngineLink.Session.Write.{write, send_lines, cut, is_pong, run_restored}
use stugan.EngineProto.{Frame, blank}
use stugan.EngineLink.Session.{Session, new_session, opened, when_restored}
use stugan.EngineLink.Session.Write.Chunks.{concat, writes, writes-after_text}
use stugan.EngineLink.Session.Write.Restored.{after_text, frame_of}
use stugan.EngineLink.Session.Acks
use stugan.EngineLink.Session.Acks.{acked, flushed, IsClimbing, run-IsClimbing}
use stugan.EngineLink.Session.Read.Items.{Item, IsTold, without_probes}
use stugan.EngineLink.Session.Read.Probes.{arrived, run, run-honest}
use stugan.EngineLink.Session.Read.Events.{Event, open_frame, line_frame, reading}

abbrev decimal : ℕ → Bytes
decimal _ = codes "7"

abbrev server_time : ℕ → Bytes
server_time _ = codes "2026-01-01T00:00:00.000Z"

abbrev goes : Frame → Bool
goes _ = true

abbrev kept : Frame
kept = record blank { handle = codes "h"; replay = codes ":irc 001 al" ∷ [] }

abbrev taken_over : Session
taken_over =
    when_restored (opened decimal server_time (new_session (codes "n") (codes "h")) (some kept)) 1

abbrev typed : List Bytes
typed =
    (codes "NICK al" ++ (13 ∷ (10 ∷ codes "PO")))
    ∷ ((codes "NG :stugan-restore-h" ++ (13 ∷ (10 ∷ (codes "JOIN #go" ++ 10 ∷ codes "PRIV")))) ∷ [])

only_join : (writes goes taken_over typed).sent ≡ frame_of (codes "h") (codes "JOIN #go") ∷ []
unfolding writes write when_restored opened new_session send_lines cut split trim_right is_pong
    equal_fold before run_restored str_eq behind last_index_byte trim_prefix_byte
only_join = refl

writes-after_text_example :
    writes goes taken_over typed ≡ after_text taken_over (taken_over.wpartial ++ concat typed)
unfolding opened new_session when_restored split
writes-after_text_example = writes-after_text goes taken_over typed (λ _. refl) refl refl refl

abbrev talk : List Event
talk =
    open_frame (some kept)
    ∷ (reading 512 0 ∷ (line_frame 7 0 (codes "PING x") ∷ (reading 5 0 ∷ [])))

run-honest_example :
    (is : List Item) × IsTold decimal server_time
      (run decimal server_time goes talk (new_session (codes "n") (codes "h"), [])).0
      (run decimal server_time goes talk (new_session (codes "n") (codes "h"), [])).1
      is
    × (without_probes is
        ≡ arrived decimal server_time goes talk (new_session (codes "n") (codes "h"), []))
run-honest_example = run-honest decimal server_time goes (codes "n") (codes "h") talk

run-IsClimbing_example : IsClimbing taken_over (
    Acks.run taken_over
      (acked 3 ∷ (flushed goes ∷ (acked 2 ∷ (flushed goes ∷ (acked 5 ∷ (flushed goes ∷ [])))))))
run-IsClimbing_example =
    run-IsClimbing taken_over
      (acked 3 ∷ (flushed goes ∷ (acked 2 ∷ (flushed goes ∷ (acked 5 ∷ (flushed goes ∷ []))))))
