-- ===== src/Core/ChatHistory.antt =====
-- internal/core/chathistory.go: catching up on what the server stored while the application was away.
-- A time is a number, 0 for the zero time; `timestamp` is `chatHistoryTime`, `itoa` strconv's.
pub mod Command
pub mod Chain
mod Examples
use stugan.Base.{
  ℕ, suc, ◌+◌, Bool, true, false, not, ◌&&◌, ◌||◌, Option, none, some, List, [], ◌∷◌, ◌++◌, Bytes,
  codes, ◌==◌, ltb, leb, str_eq, if◌then◌else◌,
}
use stugan.Go.Strings.{is_empty, has_prefix}
use stugan.Core.Names.{fold_irc, equal_irc, is_plugin_buffer, is_query_buffer}

abbrev pub catch_up_limit : ℕ
catch_up_limit = 100

abbrev pub catch_up_max_pages : ℕ
catch_up_max_pages = 10

abbrev pub targets_limit : ℕ
targets_limit = 100

-- `catchUp`
pub record CatchUp : Type 0 where
  pub pages : ℕ
  pub since : ℕ

-- The two maps of the engine; the last entry put in stands first.
pub record History : Type 0 where
  pub catch_ups : List (Bytes × CatchUp)
  pub targets_since : List (Bytes × ℕ)

-- lookup, `delete` and assignment of a map
unfoldable pub get {ℓ} : {A : Type ℓ} → Bytes → List (Bytes × A) → Option A
get k [] = none
get k ((x, a) ∷ xs) = let rest = get k xs in if str_eq x k then some a else rest

unfoldable pub delete {ℓ} : {A : Type ℓ} → Bytes → List (Bytes × A) → List (Bytes × A)
delete k [] = []
delete k ((x, a) ∷ xs) = let rest = delete k xs in if str_eq x k then rest else (x, a) ∷ rest

unfoldable pub put {ℓ} : {A : Type ℓ} → Bytes → A → List (Bytes × A) → List (Bytes × A)
put k a xs = (k, a) ∷ delete k xs

-- the entries whose key does not start with a text
unfoldable pub without_prefix {ℓ} : {A : Type ℓ} → Bytes → List (Bytes × A) → List (Bytes × A)
without_prefix p [] = []
without_prefix p ((x, a) ∷ xs) =
    let rest = without_prefix p xs in if has_prefix x p then rest else (x, a) ∷ rest

-- `catchUpKey`
unfoldable pub catch_up_key : Bytes → Bytes → Bytes
catch_up_key network buffer = network ++ 0 ∷ fold_irc buffer

-- the line that asks for the lines behind a time
unfoldable pub after_line : (ℕ → Bytes) → (ℕ → Bytes) → Bytes → ℕ → Bytes
after_line itoa timestamp buffer since =
    codes "CHATHISTORY AFTER "
    ++ (buffer ++ (codes " timestamp=" ++ (timestamp since ++ b' ' ∷ itoa catch_up_limit)))

-- The event of a batch that ended: how many lines it had, and the time of the last.
pub record Batch : Type 0 where
  pub network : Bytes
  pub buffer : Bytes
  pub count : ℕ
  pub time : ℕ

-- `onHistoryBatch`, where `connected` is whether the network has a connection: the reference of
-- the next request, if there is one. The request is `after_line` of it.
unfoldable pub on_history_batch : History → Bool → Batch → History × Option ℕ
on_history_batch h connected ev =
    let key = catch_up_key ev.network ev.buffer in
    elim (get key h.catch_ups) [
      | none ↦ (h, none)
      | some ch ↦
          if not connected
            || (ltb ev.count catch_up_limit
                || (leb catch_up_max_pages ch.pages || not (ltb ch.since ev.time)))
          then (record h { catch_ups = delete key h.catch_ups }, none)
          else (
            record h {
              catch_ups = put key (record { pages = suc ch.pages; since = ev.time }) h.catch_ups;
            },
            some ev.time,
          )
    ]

-- What `catchUpBuffer` reads: the store, whether the network has a connection with chat history,
-- the time of the newest stored line (`none` for an error), and whether the connection is the same
-- when the store has answered.
pub record Source : Type 0 where
  pub has_store : Bool
  pub has_history : Bool
  pub last_chat_time : Option ℕ
  pub same_conn : Bool

-- where a catch-up starts
unfoldable pub baseline : ℕ → ℕ → ℕ
baseline stored fallback = if stored == 0 then fallback else stored

-- `catchUpBuffer`: the reference of the request, if there is one
unfoldable pub catch_up_buffer : History → Source → Bytes → Bytes → ℕ → ℕ → History × Option ℕ
unfolding baseline
catch_up_buffer h src network buffer newest fallback =
    if not src.has_store || not src.has_history then (h, none) else elim src.last_chat_time [
      | none ↦ (h, none)
      | some stored ↦
          let since = baseline stored fallback in
          if since == 0 || (not (newest == 0) && not (ltb since newest))
          then (h, none)
          else if not src.same_conn
          then (h, none)
          else (
            record h {
              catch_ups =
                  put (catch_up_key network buffer) (record { pages = 1; since = since })
                    h.catch_ups;
            },
            some since,
          )
    ]

-- `onHistoryTarget`, where `nick` is the user's nick on the network if the network is known: whether the
-- event is committed, and the catch-up
unfoldable pub on_history_target :
    History → Source → Option Bytes → Bytes → Bytes → ℕ → Bool × (History × Option ℕ)
on_history_target h src nick network buffer time =
    if is_empty buffer || (not (is_query_buffer buffer) || is_plugin_buffer buffer)
    then (false, (h, none))
    else elim nick [
      | none ↦ (false, (h, none))
      | some n ↦ if equal_irc n buffer then (false, (h, none)) else (
        true,
        catch_up_buffer h src network buffer time
            (elim (get network h.targets_since) [ some t ↦ t | none ↦ 0 ]),
      )
    ]

-- the newest of the times that the store gives for the buffers, as `startCatchUp` takes it
unfoldable pub newest_of : ℕ → List (Option ℕ) → ℕ
newest_of since [] = since
newest_of since (none ∷ ts) = newest_of since ts
newest_of since (some t ∷ ts) = newest_of (if ltb since t then t else since) ts

-- `startCatchUp`: the reference of the TARGETS request; `times` is what the store gives for the
-- channels and queries of the network
unfoldable pub start_catch_up : History → Source → Bytes → List (Option ℕ) → History × Option ℕ
unfolding newest_of
start_catch_up h src network times =
    let since = newest_of 0 times in
    if not src.has_store || (not src.has_history || (since == 0 || not src.same_conn))
    then (h, none)
    else (record h { targets_since = put network since h.targets_since }, some since)

-- `dropCatchUps`
unfoldable pub drop_catch_ups : History → Bytes → History
drop_catch_ups h network = record {
  catch_ups = without_prefix (network ++ 0 ∷ []) h.catch_ups;
  targets_since = delete network h.targets_since;
}
