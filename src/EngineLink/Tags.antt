-- ===== src/EngineLink/Tags.antt =====
-- internal/enginelink/tags.go: the tags that the relay adds to a line. `decimal` is
-- `strconv.FormatUint` in base ten, `server_time` the formatting of a time in milliseconds.
pub mod Joined
pub mod Forged
use stugan.Base.{
  ℕ, ◌+◌, Bool, true, false, not, ◌&&◌, ◌||◌, List, [], ◌∷◌, ◌++◌, Bytes, codes, ltb, if◌then◌else◌,
  str_eq, drop,
}
use stugan.Go.Strings.{
  contains_byte, starts_with_byte, has_prefix, trim_left, before, behind, split, join,
}

abbrev pub tag_prefix : Bytes
tag_prefix = codes "stugan/"

abbrev pub tag_seq : Bytes
tag_seq = codes "stugan/seq"

abbrev pub tag_replay : Bytes
tag_replay = codes "stugan/replay"

abbrev pub tag_ack : Bytes
tag_ack = codes "stugan/ack"

abbrev pub ack_probe_command : Bytes
ack_probe_command = codes "STUGANACK"

pub ack_probe : (ℕ → Bytes) → ℕ → Bytes
ack_probe decimal seq =
    b'@'
    ∷ (tag_ack
        ++ (b'=' ∷ (decimal seq ++ (codes " :stugan " ++ (ack_probe_command ++ 13 ∷ (10 ∷ []))))))

-- `strings.Cut(t, "=")`
abbrev pub key_of : Bytes → Bytes
key_of t = before t b'='

is_empty : Bytes → Bool
is_empty [] = true
is_empty (c ∷ s) = false

-- a tag that is dropped
pub is_dropped : Bytes → Bool
unfolding is_empty
is_dropped t = is_empty t || has_prefix (key_of t) tag_prefix

-- The loop over the tags of a line: those kept, and whether one is the time.
pub keep : List Bytes → List Bytes
keep [] = []
keep (t ∷ ts) = let rest = keep ts in if is_dropped t then rest else t ∷ rest

pub has_time : List Bytes → Bool
has_time [] = false
has_time (t ∷ ts) = (not (is_dropped t) && str_eq (key_of t) (codes "time")) || has_time ts

-- The relay's own tags.
pub own_tags : (ℕ → Bytes) → (ℕ → Bytes) → Bool → ℕ → ℕ → Bool → List Bytes
own_tags decimal server_time timed seq at replay =
    (if ltb 0 seq then (tag_seq ++ (b'=' ∷ decimal seq)) ∷ [] else [])
    ++ ((if replay then tag_replay ∷ [] else [])
        ++ (if not timed && ltb 0 at then (codes "time=" ++ server_time at) ∷ [] else []))

-- a line with these tags in front
pub tagged : List Bytes → Bytes → Bytes
tagged [] rest = rest
tagged (t ∷ ts) rest = b'@' ∷ (join (t ∷ ts) (b';' ∷ []) ++ b' ' ∷ rest)

-- the tags of a line that starts with `@` and has a space
abbrev pub tags_of : Bytes → List Bytes
tags_of line = split (drop 1 (before line b' ')) b';'

-- `TagLine`
unfoldable pub tag_line : (ℕ → Bytes) → (ℕ → Bytes) → Bytes → ℕ → ℕ → Bool → Bytes
unfolding own_tags keep has_time tagged is_dropped
tag_line decimal server_time line seq at replay =
    if starts_with_byte line b'@'
    then (if contains_byte line b' '
        then tagged
            (own_tags decimal server_time (has_time (tags_of line)) seq at replay
              ++ keep (tags_of line))
            (trim_left (behind line b' ') b' ')
        else line)
    else tagged (own_tags decimal server_time false seq at replay ++ []) line
