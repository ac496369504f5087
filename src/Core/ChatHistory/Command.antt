-- ===== src/Core/ChatHistory/Command.antt =====
-- The line of the command /chathistory: chatHistoryRef and chatHistoryLine. `atoi` is `strconv.Atoi`, `none`
-- for an error and otherwise an int64's bit pattern; `parse_time` is `time.Parse` with a layout.
pub mod Asked
use stugan.Base.{
  ℕ, ◌+◌, ◌*◌, Bool, true, false, not, ◌&&◌, ◌||◌, Option, none, some, ◌⊎◌, inl, inr, List, [], ◌∷◌,
  ◌++◌, Bytes, codes, ◌==◌, ltb, lt_i64, min, length, drop, str_eq, if◌then◌else◌,
}
use stugan.Go.Strings.{is_empty, has_prefix, to_lower, to_upper}
use stugan.Core.Names.{status_buffer, is_plugin_buffer}

abbrev pub max_chat_history : ℕ
max_chat_history = 1000

-- The errors: a limit below one, the usage, a reference that is none, a buffer that is neither channel nor
-- query, for a subcommand.
pub data Error : Type 0 where
  limit_too_small : Error
  usage : Error
  bad_reference : Bytes → Error
  no_target : Bytes → Error

-- What is taken from strconv, from package time and from the Unicode tables.
pub record Go : Type 0 where
  pub atoi : Bytes → Option ℕ
  pub itoa : ℕ → Bytes
  pub parse_time : Bytes → Bytes → Option ℕ
  pub timestamp : ℕ → Bytes
  -- the times a week back and a minute ahead
  pub week_ago : ℕ → ℕ
  pub minute_on : ℕ → ℕ
  pub unicode_lower : Bytes → Bytes
  pub unicode_upper : Bytes → Bytes

abbrev pub layouts : List Bytes
layouts =
    codes "2006-01-02T15:04:05.999999999Z07:00"
    ∷ (codes "2006-01-02T15:04:05"
        ∷ (codes "2006-01-02 15:04:05" ∷ (codes "2006-01-02 15:04" ∷ (codes "2006-01-02" ∷ []))))

-- the first layout that the text is in
unfoldable pub first_time : Go → Bytes → List Bytes → Option ℕ
first_time go raw [] = none
first_time go raw (l ∷ ls) = elim (go.parse_time l raw) [
  | some t ↦ some t
  | none ↦ first_time go raw ls
]

abbrev pub timestamp_ref : Go → ℕ → Bytes
timestamp_ref go t = codes "timestamp=" ++ go.timestamp t

-- `strings.TrimPrefix`
unfoldable pub trim_prefix : Bytes → Bytes → Bytes
trim_prefix s p = if has_prefix s p then drop (length p) s else s

-- `chatHistoryRef`
unfoldable pub chat_history_ref : Go → Bytes → Error ⊎ Bytes
unfolding first_time trim_prefix
chat_history_ref go s =
    if str_eq s (codes "*") || (has_prefix s (codes "msgid=") && ltb 6 (length s))
    then inr s
    else elim (first_time go (trim_prefix s (codes "timestamp=")) layouts) [
      | some t ↦ inr (timestamp_ref go t)
      | none ↦ inl (bad_reference s)
    ]

-- The loop of `refs`.
unfoldable pub each_ref : Go → List Bytes → Error ⊎ List Bytes
each_ref go [] = inr []
each_ref go (a ∷ args) = elim (chat_history_ref go a) [
  | inl e ↦ inl e
  | inr r ↦ elim (each_ref go args) [ inl e ↦ inl e | inr rs ↦ inr (r ∷ rs) ]
]

-- `refs`
unfoldable pub refs : Go → List Bytes → ℕ → Error ⊎ List Bytes
refs go args want = if not (length args == want) then inl usage else each_ref go args

-- `needBuffer`
unfoldable pub has_target : Bytes → Bool
has_target buffer =
    not (is_empty buffer || (str_eq buffer status_buffer || is_plugin_buffer buffer))

unfoldable pub last_arg : Bytes → List Bytes → Bytes
last_arg a [] = a
last_arg a (b ∷ args) = last_arg b args

unfoldable pub but_last : List Bytes → List Bytes
but_last [] = []
but_last (a ∷ []) = []
but_last (a ∷ (b ∷ args)) = a ∷ but_last (b ∷ args)

-- The subcommand, and the arguments behind it.
unfoldable pub subcommand : Go → List Bytes → Bytes × List Bytes
subcommand go [] = (codes "latest", [])
subcommand go (a ∷ args) = elim (go.atoi a) [
  | some n ↦ (codes "latest", a ∷ args)
  | none ↦ (to_lower go.unicode_lower a, args)
]

-- The limit, and the arguments before it.
unfoldable pub split_limit : Go → List Bytes → Error ⊎ (ℕ × List Bytes)
unfolding last_arg but_last
split_limit go [] = inr (50, [])
split_limit go (a ∷ args) = elim (go.atoi (last_arg a args)) [
  | none ↦ inr (50, a ∷ args)
  | some v ↦
      if lt_i64 v 1 then inl limit_too_small else inr (min v max_chat_history, but_last (a ∷ args))
]

-- the words of a line, and its limit
abbrev pub request_line : Go → Bytes → Bytes → ℕ → Bytes
request_line go verb words limit =
    codes "CHATHISTORY " ++ (verb ++ b' ' ∷ (words ++ b' ' ∷ go.itoa limit))

abbrev pub spaced : List Bytes → Bytes
spaced [] = []
spaced (w ∷ []) = w
spaced (w ∷ (v ∷ ws)) = w ++ b' ' ∷ spaced (v ∷ ws)

-- a subcommand for a buffer, with that many references
unfoldable pub buffer_line : Go → Bytes → Bytes → Bytes → List Bytes → ℕ → ℕ → Error ⊎ Bytes
unfolding refs has_target
buffer_line go buffer sub verb args limit want =
    if not (has_target buffer) then inl (no_target sub) else elim (refs go args want) [
      | inl e ↦ inl e
      | inr rs ↦ inr (request_line go verb (spaced (buffer ∷ rs)) limit)
    ]

unfoldable pub latest_line : Go → Bytes → List Bytes → ℕ → Error ⊎ Bytes
unfolding buffer_line
latest_line go buffer [] limit =
    if not (has_target buffer)
    then inl (no_target (codes "latest"))
    else inr (request_line go (codes "LATEST") (spaced (buffer ∷ (codes "*" ∷ []))) limit)
latest_line go buffer (a ∷ args) limit =
    buffer_line go buffer (codes "latest") (codes "LATEST") (a ∷ args) limit 1

unfoldable pub targets_line : Go → List Bytes → ℕ → ℕ → Error ⊎ Bytes
targets_line go [] now limit = inr (
    request_line go (codes "TARGETS")
      (spaced (timestamp_ref go (go.week_ago now) ∷ (timestamp_ref go (go.minute_on now) ∷ [])))
      limit)
targets_line go (a ∷ args) now limit = elim (refs go (a ∷ args) 2) [
  | inl e ↦ inl e
  | inr rs ↦ inr (request_line go (codes "TARGETS") (spaced rs) limit)
]

-- the switch on the subcommand
unfoldable pub line_for : Go → Bytes → Bytes → List Bytes → ℕ → ℕ → Error ⊎ Bytes
unfolding buffer_line latest_line targets_line
line_for go buffer sub args limit now =
    if str_eq sub (codes "latest")
    then latest_line go buffer args limit
    else if str_eq sub (codes "before")
        || (str_eq sub (codes "after") || str_eq sub (codes "around"))
    then buffer_line go buffer sub (to_upper go.unicode_upper sub) args limit 1
    else if str_eq sub (codes "between")
    then buffer_line go buffer sub (codes "BETWEEN") args limit 2
    else if str_eq sub (codes "targets")
    then targets_line go args now limit
    else inl usage

-- `chatHistoryLine`
unfoldable pub chat_history_line : Go → Bytes → List Bytes → ℕ → Error ⊎ Bytes
unfolding subcommand split_limit line_for
chat_history_line go buffer args now =
    let (sub, rest) = subcommand go args in
    elim (split_limit go rest) [ inl e ↦ inl e | inr lr ↦ line_for go buffer sub lr.1 lr.0 now ]
