-- ===== src/Engine/IrcLine.antt =====
-- internal/engine/ircline.go: the minimal parse of an IRC line, and the rewriting of a recorded 001.
pub mod Params
pub mod Spaced
pub mod Rewrite
mod Examples
use mathlib.Core.Option
use stugan.Base.{
  ℕ, zero, suc, ◌+◌, Bool, true, false, ◌&&◌, ◌||◌, Option, none, some, List, [], ◌∷◌, ◌++◌, map,
  Bytes, codes, ltb, leb, ◌==◌, if◌then◌else◌, ◌>>=◌, str_eq, length, get_elem?, take, drop,
}
use stugan.Go.Strings.{
  index_byte, index_either, starts_with_byte, trim_left, before, behind, contains_byte, to_upper,
}

pub record IrcLine : Type 0 where
  pub nick : Bytes
  pub cmd : Bytes
  pub params : List Bytes

-- The loop over the parameters, on fuel: each round takes at least one byte of `rest`.
pub params_loop : ℕ → Bytes → List Bytes → List Bytes
params_loop zero rest params = params
params_loop (suc fuel) rest params = elim (trim_left rest b' ') [
  | [] ↦ params
  | c ∷ s ↦ elim (c == b':') [
    | true ↦ params ++ s ∷ []
    | false ↦ params_loop fuel (behind (c ∷ s) b' ') (params ++ before (c ∷ s) b' ' ∷ [])
  ]
]

unfoldable pub params_of : Bytes → List Bytes
unfolding params_loop
params_of rest = params_loop (length rest) rest []

-- A section that starts with `mark` must hold a byte and end in a space. `some (section, rest)`
-- is what stands between the mark and the space, and the text behind the spaces.
pub section_of : Bytes → Option (Bytes × Bytes)
section_of s = elim (index_byte s b' ') [
  | none ↦ none
  | some i ↦ if ltb i 2 then none else some (drop 1 (take i s), trim_left (drop (i + 1) s) b' ')
]

-- The tag section, skipped.
pub skip_tags : Bytes → Option Bytes
unfolding section_of
skip_tags s =
    if starts_with_byte s b'@'
    then Option.map (λ (p : Bytes × Bytes). p.1) (section_of s)
    else some s

-- `src[:j]` at the first `!` or `@`
unfoldable pub source_nick : Bytes → Bytes
source_nick src = elim (index_either src b'!' b'@') [ some j ↦ take j src | none ↦ src ]

-- The source nick and the text behind it.
pub take_source : Bytes → Option (Bytes × Bytes)
unfolding section_of
take_source s =
    if starts_with_byte s b':'
    then Option.map (λ (p : Bytes × Bytes). (source_nick p.0, p.1)) (section_of s)
    else some ([], s)

-- `unicode` is the upper-case mapping of text that is not ASCII.
module _ (unicode : Bytes → Bytes) where
  pub command_of : Bytes → Bytes → Option IrcLine
  command_of nick [] = none
  command_of nick (c ∷ s) = some (record {
    nick = nick;
    cmd = to_upper unicode (before (c ∷ s) b' ');
    params = params_of (behind (c ∷ s) b' ');
  })

  unfoldable pub parse_line : Bytes → Option IrcLine
  unfolding skip_tags take_source command_of
  parse_line raw = do s ← skip_tags raw; p ← take_source s; command_of p.0 p.1

unfoldable pub param : IrcLine → ℕ → Bytes
param l i = elim (get_elem? l.params i) [ some p ↦ p | none ↦ [] ]

unfoldable pub last_of : List Bytes → Bytes
last_of [] = []
last_of (p ∷ []) = p
last_of (p ∷ (q ∷ ps)) = last_of (q ∷ ps)

unfoldable pub last : IrcLine → Bytes
unfolding last_of
last l = last_of l.params

-- one byte under RFC 1459 casemapping
unfoldable pub fold_byte : ℕ → ℕ
fold_byte c =
    if leb b'A' c && leb c b'Z'
    then c + 32
    else if c == b'['
    then b'{'
    else if c == b']'
    then b'}'
    else if c == b'\\'
    then b'|'
    else if c == b'~'
    then b'^'
    else c

unfoldable pub fold : Bytes → Bytes
unfolding fold_byte
fold = map fold_byte

is_one_of : Bytes → List Bytes → Bool
is_one_of c [] = false
is_one_of c (x ∷ xs) = str_eq c x || is_one_of c xs

unfoldable pub is_burst_command : Bytes → Bool
unfolding is_one_of
is_burst_command cmd = is_one_of cmd (
    codes "CAP"
    ∷ codes "AUTHENTICATE"
    ∷ codes "001"
    ∷ codes "002"
    ∷ codes "003"
    ∷ codes "004"
    ∷ codes "005"
    ∷ codes "042"
    ∷ codes "900"
    ∷ codes "901"
    ∷ codes "903"
    ∷ codes "907"
    ∷ codes "908"
    ∷ [])

unfoldable pub end_of_burst : Bytes → Bool
end_of_burst cmd = str_eq cmd (codes "376") || str_eq cmd (codes "422")

-- Cuts a leading section with its mark and its space off: `(s[:i+1], s[i+1:])`; `none` if there
-- is no space.
pub cut_section : ℕ → Bytes → Option (Bytes × Bytes)
cut_section mark s =
    if starts_with_byte s mark
    then Option.map (λ (i : ℕ). (take (i + 1) s, drop (i + 1) s)) (index_byte s b' ')
    else some ([], s)

-- `if after != "" { out += " " + after }`
abbrev pub following : Bytes → Bytes
following [] = []
following (d ∷ after) = b' ' ∷ (d ∷ after)

-- The text behind the sections, with the first parameter replaced; `none` where `raw` is kept.
pub replace_first : Bytes → Bytes → Option Bytes
replace_first nick s =
    if contains_byte s b' '
    then elim (behind s b' ') [
      | [] ↦ none
      | c ∷ rest ↦
          if c == b':'
          then none
          else some (before s b' ' ++ (b' ' ∷ (nick ++ following (behind (c ∷ rest) b' '))))
    ]
    else none

pub rewritten : Bytes → Bytes → Option Bytes
rewritten raw nick = do
  t ← cut_section b'@' raw
  p ← cut_section b':' t.1
  out ← replace_first nick p.1
  some (t.0 ++ (p.0 ++ out))

pub rewrite_target : Bytes → Bytes → Bytes
rewrite_target raw nick = elim (rewritten raw nick) [ some out ↦ out | none ↦ raw ]
