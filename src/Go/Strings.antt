-- ===== src/Go/Strings.antt =====
-- Package strings: searching, cutting and trimming at single bytes, and letter case.
pub mod Laws
pub mod Splitting
use mathlib.Core.Option
use stugan.Base.{
  ℕ, suc, ◌+◌, ◌-◌, Bool, true, false, ◌&&◌, ◌||◌, Option, none, some, List, [], ◌∷◌, ◌++◌, map,
  Bytes, ltb, leb, ◌==◌, if◌then◌else◌,
}

-- `strings.IndexByte`; `none` for -1
unfoldable pub index_byte : Bytes → ℕ → Option ℕ
index_byte [] c = none
index_byte (x ∷ s) c = if x == c then some 0 else Option.map suc (index_byte s c)

unfoldable pub contains_byte : Bytes → ℕ → Bool
contains_byte [] c = false
contains_byte (x ∷ s) c = x == c || contains_byte s c

-- `strings.IndexAny(s, "xy")` for two ASCII bytes
unfoldable pub index_either : Bytes → ℕ → ℕ → Option ℕ
index_either [] c d = none
index_either (x ∷ s) c d = if x == c || x == d then some 0 else Option.map suc (index_either s c d)

-- `strings.LastIndexByte`
unfoldable pub last_index_byte : Bytes → ℕ → Option ℕ
last_index_byte [] c = none
last_index_byte (x ∷ s) c = elim (last_index_byte s c) [
  | some i ↦ some (suc i)
  | none ↦ if x == c then some 0 else none
]

-- `strings.HasPrefix(s, "c")` for one byte
unfoldable pub starts_with_byte : Bytes → ℕ → Bool
starts_with_byte [] c = false
starts_with_byte (x ∷ s) c = x == c

-- `strings.HasPrefix`
unfoldable pub has_prefix : Bytes → Bytes → Bool
has_prefix s [] = true
has_prefix [] (p ∷ ps) = false
has_prefix (x ∷ s) (p ∷ ps) = x == p && has_prefix s ps

-- `strings.TrimLeft(s, "c")` for one byte
unfoldable pub trim_left : Bytes → ℕ → Bytes
trim_left [] c = []
trim_left (x ∷ s) c = let rest = trim_left s c in if x == c then rest else x ∷ s

-- The part of `s` before the first `c`, and the part behind it: `strings.Cut(s, "c")`.
unfoldable pub before : Bytes → ℕ → Bytes
before [] c = []
before (x ∷ s) c = let rest = before s c in if x == c then [] else x ∷ rest

unfoldable pub behind : Bytes → ℕ → Bytes
behind [] c = []
behind (x ∷ s) c = let rest = behind s c in if x == c then s else rest

-- `strings.Split(s, "c")` for one byte: always one part more than there are separators
unfoldable pub split : Bytes → ℕ → List Bytes
split [] c = [] ∷ []
split (x ∷ s) c = elim (split s c) [
  | [] ↦ []
  | p ∷ ps ↦ if x == c then [] ∷ (p ∷ ps) else (x ∷ p) ∷ ps
]

-- `strings.Join`
unfoldable pub join : List Bytes → Bytes → Bytes
join [] sep = []
join (p ∷ []) sep = p
join (p ∷ (q ∷ ps)) sep = p ++ (sep ++ join (q ∷ ps) sep)

unfoldable pub is_ascii : Bytes → Bool
is_ascii [] = true
is_ascii (x ∷ s) = ltb x 128 && is_ascii s

unfoldable pub upper_byte : ℕ → ℕ
upper_byte c = if leb b'a' c && leb c b'z' then c - 32 else c

-- `strings.ToUpper`: byte by byte if all bytes are ASCII; otherwise by the Unicode tables, which
-- are the parameter.
unfoldable pub to_upper : (Bytes → Bytes) → Bytes → Bytes
unfolding is_ascii upper_byte
to_upper unicode s = if is_ascii s then map upper_byte s else unicode s

-- `strings.EqualFold(s, t)` for an upper-case ASCII literal `t`. Outside ASCII only the Kelvin
-- sign (0xe2 0x84 0xaa) folds to `K` and the long s (0xc5 0xbf) to `S`.
unfoldable pub equal_fold : Bytes → Bytes → Bool
unfolding upper_byte
equal_fold [] [] = true
equal_fold [] (t ∷ ts) = false
equal_fold (x ∷ s) [] = false
equal_fold (x ∷ []) (t ∷ ts) = upper_byte x == t && equal_fold [] ts
equal_fold (x ∷ (y ∷ [])) (t ∷ ts) =
    (upper_byte x == t && equal_fold (y ∷ []) ts)
    || (t == b'S' && (x == 0xc5 && (y == 0xbf && equal_fold [] ts)))
equal_fold (x ∷ (y ∷ (z ∷ s))) (t ∷ ts) =
    (upper_byte x == t && equal_fold (y ∷ (z ∷ s)) ts)
    || ((t == b'S' && (x == 0xc5 && (y == 0xbf && equal_fold (z ∷ s) ts)))
        || (t == b'K' && (x == 0xe2 && (y == 0x84 && (z == 0xaa && equal_fold s ts)))))

unfoldable pub lower_byte : ℕ → ℕ
lower_byte c = if leb b'A' c && leb c b'Z' then c + 32 else c

-- `strings.ToLower`, as `to_upper`
unfoldable pub to_lower : (Bytes → Bytes) → Bytes → Bytes
unfolding is_ascii lower_byte
to_lower unicode s = if is_ascii s then map lower_byte s else unicode s

-- `s == ""`
abbrev pub is_empty : Bytes → Bool
is_empty [] = true
is_empty (x ∷ s) = false

-- `strings.TrimPrefix(s, "c")` for one byte
unfoldable pub trim_prefix_byte : Bytes → ℕ → Bytes
trim_prefix_byte [] c = []
trim_prefix_byte (x ∷ s) c = if x == c then s else x ∷ s

-- `strings.TrimRight(s, "c")` for one byte
unfoldable pub trim_right : Bytes → ℕ → Bytes
trim_right [] c = []
trim_right (x ∷ s) c = let rest = trim_right s c in if x == c && is_empty rest then [] else x ∷ rest
