-- ===== src/Go/Utf8.antt =====
-- Package unicode/utf8: reading and writing runes.
use stugan.Base.{
  ℕ, zero, suc, ◌+◌, ◌-◌, ◌*◌, ◌<◌, Bool, true, false, ◌&&◌, List, [], ◌∷◌, Bytes, ltb, leb, ◌==◌,
  take, ◌≡◌, arith, if◌then◌else◌,
}

abbrev pub rune_error : ℕ
rune_error = 0xfffd

-- a continuation byte
is_cont : ℕ → Bool
is_cont b = leb 0x80 b && leb b 0xbf

-- The bounds that the second byte keeps, behind the lead byte `a` (no overlong forms, no
-- surrogates, nothing past U+10FFFF).
second_ok : ℕ → ℕ → Bool
second_ok a b =
    leb (if a == 0xe0 then 0xa0 else if a == 0xf0 then 0x90 else 0x80) b
    && leb b (if a == 0xed then 0x9f else if a == 0xf4 then 0x8f else 0xbf)

-- `utf8.DecodeRune`: the rune and its width in bytes, `(rune_error, 1)` for a byte that starts none
unfoldable pub decode_rune : Bytes → ℕ × ℕ
unfolding is_cont second_ok
decode_rune [] = (rune_error, 0)
decode_rune (a ∷ []) = if ltb a 0x80 then (a, 1) else (rune_error, 1)
decode_rune (a ∷ (b ∷ [])) =
    if ltb a 0x80
    then (a, 1)
    else if leb 0xc2 a && (leb a 0xdf && is_cont b)
    then ((a - 0xc0) * 64 + (b - 0x80), 2)
    else (rune_error, 1)
decode_rune (a ∷ (b ∷ (c ∷ []))) =
    if ltb a 0x80
    then (a, 1)
    else if leb 0xc2 a && (leb a 0xdf && is_cont b)
    then ((a - 0xc0) * 64 + (b - 0x80), 2)
    else if leb 0xe0 a && (leb a 0xef && (second_ok a b && is_cont c))
    then ((a - 0xe0) * 4096 + (b - 0x80) * 64 + (c - 0x80), 3)
    else (rune_error, 1)
decode_rune (a ∷ (b ∷ (c ∷ (d ∷ s)))) =
    if ltb a 0x80
    then (a, 1)
    else if leb 0xc2 a && (leb a 0xdf && is_cont b)
    then ((a - 0xc0) * 64 + (b - 0x80), 2)
    else if leb 0xe0 a && (leb a 0xef && (second_ok a b && is_cont c))
    then ((a - 0xe0) * 4096 + (b - 0x80) * 64 + (c - 0x80), 3)
    else if leb 0xf0 a && (leb a 0xf4 && (second_ok a b && (is_cont c && is_cont d)))
    then ((a - 0xf0) * 262144 + (b - 0x80) * 4096 + (c - 0x80) * 64 + (d - 0x80), 4)
    else (rune_error, 1)

-- The width read is 1 for an error too, so an error is told from a real U+FFFD by its width.
is_error : ℕ × ℕ → Bool
is_error (r, w) = r == rune_error && leb w 1

-- Walks the text rune by rune; the number is what is left of the current one.
valid_from : ℕ → Bytes → Bool
unfolding is_error
valid_from k [] = true
valid_from (suc k) (c ∷ s) = valid_from k s
valid_from zero (c ∷ s) =
    let (r, w) = decode_rune (c ∷ s) in
    let rest = valid_from (w - 1) s in if is_error (r, w) then false else rest

unfoldable pub valid_string : Bytes → Bool
unfolding valid_from decode_rune
valid_string s = valid_from 0 s

-- The characters that `range` goes through, each as `WriteRune` writes it: a byte that starts no
-- rune is written as U+FFFD. The number is what is left of the current one.
chars_from : ℕ → Bytes → List Bytes
unfolding is_error
chars_from k [] = []
chars_from (suc k) (c ∷ s) = chars_from k s
chars_from zero (c ∷ s) =
    let (r, w) = decode_rune (c ∷ s) in
    let rest = chars_from (w - 1) s in
    (if is_error (r, w) then 0xef ∷ (0xbf ∷ (0xbd ∷ [])) else take w (c ∷ s)) ∷ rest

unfoldable pub chars : Bytes → List Bytes
unfolding chars_from decode_rune
chars s = chars_from 0 s

decode_rune-ascii : (c : ℕ) (s : Bytes) → c < 128 → decode_rune (c ∷ s) ≡ (c, 1)
unfolding decode_rune
decode_rune-ascii c [] h = ground arith
decode_rune-ascii c (x ∷ []) h = ground arith
decode_rune-ascii c (x ∷ (y ∷ [])) h = ground arith
decode_rune-ascii c (x ∷ (y ∷ (z ∷ s))) h = ground arith

-- An ASCII byte in front is a character.
pub chars-cons : (c : ℕ) (s : Bytes) → c < 128 → chars (c ∷ s) ≡ (c ∷ []) ∷ chars s
unfolding chars is_error
chars-cons c s h = rw (decode_rune-ascii c s h) (ground arith)
