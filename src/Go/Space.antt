-- ===== src/Go/Space.antt =====
-- `strings.TrimSpace` and `strings.Fields`: white space as `unicode.IsSpace` has it, on UTF-8 text.
use mathlib.Core.List.{reverse}
use stugan.Base.{ℕ, zero, suc, Bool, ◌&&◌, ◌||◌, List, [], ◌∷◌, Bytes, leb, ◌==◌, if◌then◌else◌}

-- `\t \n \v \f \r` and the space
unfoldable pub is_ascii_space : ℕ → Bool
is_ascii_space c = c == b' ' || (leb 9 c && leb c 13)

-- U+2000 to U+200A, U+2028, U+2029, U+202F: the byte behind E2 80
is_e2_80_space : ℕ → Bool
is_e2_80_space c = (leb 0x80 c && leb c 0x8a) || (c == 0xa8 || (c == 0xa9 || c == 0xaf))

-- The number of bytes of the white-space character that a text starts with; 0 if there is none.
space_len : Bytes → ℕ
unfolding is_ascii_space is_e2_80_space
space_len [] = 0
space_len (a ∷ []) = if is_ascii_space a then 1 else 0
space_len (a ∷ (b ∷ [])) =
    if is_ascii_space a then 1 else if a == 0xc2 && (b == 0x85 || b == 0xa0) then 2 else 0
space_len (a ∷ (b ∷ (c ∷ s))) =
    if is_ascii_space a
    then 1
    else if a == 0xc2 && (b == 0x85 || b == 0xa0)
    then 2
    else if (a == 0xe1 && (b == 0x9a && c == 0x80))
        || ((a == 0xe2 && (b == 0x80 && is_e2_80_space c))
            || ((a == 0xe2 && (b == 0x81 && c == 0x9f)) || (a == 0xe3 && (b == 0x80 && c == 0x80))))
    then 3
    else 0

-- The same for the character that a text ends with; the text is given reversed.
last_space_len : Bytes → ℕ
unfolding is_ascii_space is_e2_80_space
last_space_len [] = 0
last_space_len (a ∷ []) = if is_ascii_space a then 1 else 0
last_space_len (a ∷ (b ∷ [])) =
    if is_ascii_space a then 1 else if b == 0xc2 && (a == 0x85 || a == 0xa0) then 2 else 0
last_space_len (a ∷ (b ∷ (c ∷ s))) =
    if is_ascii_space a
    then 1
    else if b == 0xc2 && (a == 0x85 || a == 0xa0)
    then 2
    else if (c == 0xe1 && (b == 0x9a && a == 0x80))
        || ((c == 0xe2 && (b == 0x80 && is_e2_80_space a))
            || ((c == 0xe2 && (b == 0x81 && a == 0x9f)) || (c == 0xe3 && (b == 0x80 && a == 0x80))))
    then 3
    else 0

-- Drops characters as long as `len` finds one; the number is what is left of the current one.
skip_spaces : (Bytes → ℕ) → ℕ → Bytes → Bytes
skip_spaces len k [] = []
skip_spaces len (suc k) (c ∷ s) = skip_spaces len k s
skip_spaces len zero (c ∷ s) = elim (len (c ∷ s)) [ zero ↦ c ∷ s | suc k ↦ skip_spaces len k s ]

unfoldable pub trim_space : Bytes → Bytes
unfolding skip_spaces space_len last_space_len
trim_space s = reverse (skip_spaces last_space_len 0 (reverse (skip_spaces space_len 0 s)))

-- Puts a byte in front of the first field; a field that a separator ends starts empty.
onto_first : ℕ → List Bytes → List Bytes
onto_first c [] = (c ∷ []) ∷ []
onto_first c (f ∷ fs) = (c ∷ f) ∷ fs

-- The fields with the empty ones between separators; the number is what is left of a separator.
pieces : ℕ → Bytes → List Bytes
unfolding space_len onto_first
pieces k [] = [] ∷ []
pieces (suc k) (c ∷ s) = pieces k s
pieces zero (c ∷ s) = elim (space_len (c ∷ s)) [
  | zero ↦ onto_first c (pieces zero s)
  | suc k ↦ [] ∷ pieces k s
]

without_empty : List Bytes → List Bytes
without_empty [] = []
without_empty ([] ∷ fs) = without_empty fs
without_empty ((c ∷ f) ∷ fs) = (c ∷ f) ∷ without_empty fs

-- `strings.Fields`
unfoldable pub fields : Bytes → List Bytes
unfolding pieces without_empty
fields s = without_empty (pieces 0 s)
