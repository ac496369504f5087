-- ===== src/Core/ChatHistory/Examples.antt =====
-- A catch-up of #go over two pages, and the command in it.
use stugan.Base.{
  Climbs, if◌then◌else◌, Bool, true, some, none, List, [], ◌∷◌, codes, refl, ◌≤◌, length, str_eq,
}
use stugan.Core.ChatHistory.{History, Source, Batch, catch_up_key, catch_up_buffer}
use stugan.Core.ChatHistory.Chain.{requests, catch_up-IsBounded}
use stugan.Core.ChatHistory.Command.{Go, chat_history_line}
use stugan.Core.ChatHistory.Command.Asked.{IsAnswer, chat_history_line-IsAnswer}

abbrev empty : History
empty = record { catch_ups = []; targets_since = [] }

abbrev source : Source
source = record { has_store = true; has_history = true; last_chat_time = some 5; same_conn = true }

abbrev pages : List (Bool × Batch)
pages =
    (true, record { network = codes "n"; buffer = codes "#go"; count = 100; time = 7 })
    ∷ ((true, record { network = codes "n"; buffer = codes "#go"; count = 3; time = 9 }) ∷ [])

catch_up-IsBounded_example :
    (length (
        requests
          (catch_up_key (codes "n") (codes "#go"))
          (catch_up_buffer empty source (codes "n") (codes "#go") 9 0).0
          pages)
      ≤ 9)
    × Climbs 5 (
        requests
          (catch_up_key (codes "n") (codes "#go"))
          (catch_up_buffer empty source (codes "n") (codes "#go") 9 0).0
          pages)
unfolding catch_up_buffer
catch_up-IsBounded_example =
    catch_up-IsBounded empty source (codes "n") (codes "#go") 9 0 5 pages refl

abbrev go : Go
go = record {
  atoi = λ s. if str_eq s (codes "20") then some 20 else none;
  itoa = λ _. codes "20";
  parse_time = λ _ _. none;
  timestamp = λ _. codes "2026-01-01T00:00:00.000Z";
  week_ago = λ t. t;
  minute_on = λ t. t;
  unicode_lower = λ s. s;
  unicode_upper = λ s. s;
}

chat_history_line-IsAnswer_example :
    IsAnswer go (codes "#go") (chat_history_line go (codes "#go") (codes "20" ∷ []) 0)
chat_history_line-IsAnswer_example = chat_history_line-IsAnswer go (codes "#go") (codes "20" ∷ []) 0
