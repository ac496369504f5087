-- ===== src/IrcServer/Parse.antt =====
-- internal/ircserver/parse.go: lines from clients and to them, and the values of message tags.
pub mod Tags
use mathlib.Core.Option
use mathlib.Core.List.{reverse, concat}
use stugan.Base.{
  ℕ, suc, ◌+◌, Bool, true, false, ◌&&◌, ◌||◌, Option, none, some, List, [], ◌∷◌, ◌++◌, map, Bytes,
  codes, ltb, leb, ◌==◌, if◌then◌else◌, str_eq, take, drop, length, ◌>>=◌,
}
use stugan.Go.Strings.{
  index_byte, contains_byte, starts_with_byte, trim_left, before, behind, split, join, to_upper,
}
use stugan.Go.Space.{fields}
use stugan.Go.Utf8.{chars}

-- `EscapeTagValue` of one character
unfoldable pub escape_char : Bytes → Bytes
escape_char c =
    if str_eq c (b';' ∷ [])
    then b'\\' ∷ (b':' ∷ [])
    else if str_eq c (b' ' ∷ [])
    then b'\\' ∷ (b's' ∷ [])
    else if str_eq c (b'\\' ∷ [])
    then b'\\' ∷ (b'\\' ∷ [])
    else if str_eq c (13 ∷ [])
    then b'\\' ∷ (b'r' ∷ [])
    else if str_eq c (10 ∷ [])
    then b'\\' ∷ (b'n' ∷ [])
    else c

escape_chars : List Bytes → Bytes
escape_chars [] = []
escape_chars (c ∷ cs) = escape_char c ++ escape_chars cs

unfoldable pub escape_tag_value : Bytes → Bytes
unfolding escape_chars
escape_tag_value v = escape_chars (chars v)

-- the character that one behind a backslash stands for
unfoldable pub unescape_char : Bytes → Bytes
unescape_char c =
    if str_eq c (b':' ∷ [])
    then b';' ∷ []
    else if str_eq c (b's' ∷ [])
    then b' ' ∷ []
    else if str_eq c (b'\\' ∷ [])
    then b'\\' ∷ []
    else if str_eq c (b'r' ∷ [])
    then 13 ∷ []
    else if str_eq c (b'n' ∷ [])
    then 10 ∷ []
    else c

-- The loop of `UnescapeTagValue`, with its flag `escaped`.
unescape_chars : Bool → List Bytes → Bytes
unescape_chars escaped [] = []
unescape_chars true (c ∷ cs) = unescape_char c ++ unescape_chars false cs
unescape_chars false (c ∷ cs) = elim (str_eq c (b'\\' ∷ [])) [
  | true ↦ unescape_chars true cs
  | false ↦ c ++ unescape_chars false cs
]

unfoldable pub unescape_tag_value : Bytes → Bytes
unfolding unescape_chars
unescape_tag_value v = unescape_chars false (chars v)

pub record Message : Type 0 where
  pub raw_tags : Bytes
  pub tags : List (Bytes × Bytes)
  pub prefix : Bytes
  pub command : Bytes
  pub params : List Bytes

abbrev max_client_tag_bytes : ℕ
max_client_tag_bytes = 4094

-- `tags[key] = val`
set_tag : List (Bytes × Bytes) → Bytes → Bytes → List (Bytes × Bytes)
set_tag [] key val = (key, val) ∷ []
set_tag ((k, v) ∷ tags) key val =
    let rest = set_tag tags key val in if str_eq k key then (k, val) ∷ tags else (k, v) ∷ rest

-- a tag's key, and its value decoded
tag_key : Bytes → Bytes
tag_key t = before t b'='

tag_val : Bytes → Bytes
tag_val t = if contains_byte t b'=' then unescape_tag_value (behind t b'=') else []

-- `strings.HasPrefix(key, "+") && len(key) > 1`
is_client_key : Bytes → Bool
is_client_key key = starts_with_byte key b'+' && ltb 1 (length key)

-- The loop over the tags; an empty one has no client key.
keep_tags : List Bytes → List (Bytes × Bytes) → List Bytes → List (Bytes × Bytes) × List Bytes
unfolding tag_key tag_val is_client_key set_tag
keep_tags [] tags kept = (tags, kept)
keep_tags (t ∷ ts) tags kept = elim (is_client_key (tag_key t)) [
  | true ↦ keep_tags ts (set_tag tags (tag_key t) (tag_val t)) (kept ++ t ∷ [])
  | false ↦ keep_tags ts tags kept
]

raw_tags_of : List Bytes → Bytes
raw_tags_of kept =
    let joined = join kept (b';' ∷ []) in
    if leb (length joined) max_client_tag_bytes then joined else []

-- The tags and the rest of the line.
read_tags : Bytes → Option ((Bytes × List (Bytes × Bytes)) × Bytes)
unfolding keep_tags raw_tags_of
read_tags line =
    if starts_with_byte line b'@'
    then (if contains_byte line b' '
        then (let (tags, kept) = keep_tags (split (drop 1 (before line b' ')) b';') [] [] in
            some ((raw_tags_of kept, tags), trim_left (behind line b' ') b' '))
        else none)
    else some (([], []), line)

-- The rest of the line behind a prefix.
skip_prefix : Bytes → Option Bytes
skip_prefix line =
    if starts_with_byte line b':'
    then (if contains_byte line b' ' then some (trim_left (behind line b' ') b' ') else none)
    else some line

-- `strings.Index(line, " :")`: the head and the trailing parameter
cut_trailing : Bytes → Bytes × List Bytes
cut_trailing [] = ([], [])
cut_trailing (c ∷ s) =
    let (head, trailing) = cut_trailing s in
    if c == b' ' && starts_with_byte s b':' then ([], drop 1 s ∷ []) else (c ∷ head, trailing)

read_command : (Bytes → Bytes) → (Bytes × List (Bytes × Bytes)) → Bytes → Option Message
unfolding cut_trailing
read_command unicode (raw_tags, tags) line =
    let (head, trailing) = cut_trailing line in
    elim (fields head) [
      | [] ↦ none
      | cmd ∷ params ↦ some (record {
        raw_tags = raw_tags;
        tags = tags;
        prefix = [];
        command = to_upper unicode cmd;
        params = params ++ trailing;
      })
    ]

-- `strings.TrimRight(raw, "\r\n\x00")`
drop_ends : Bytes → Bytes
drop_ends [] = []
drop_ends (c ∷ s) = let rest = drop_ends s in if c == 13 || (c == 10 || c == 0) then rest else c ∷ s

-- `ParseLine`; an empty line has no field, so the checks for one give none as well.
unfoldable pub parse_line : (Bytes → Bytes) → Bytes → Option Message
unfolding drop_ends read_tags skip_prefix read_command
parse_line unicode raw = do
  t ← read_tags (reverse (drop_ends (reverse raw)))
  line ← skip_prefix t.1
  read_command unicode t.0 line
