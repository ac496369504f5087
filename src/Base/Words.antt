-- ===== src/Base/Words.antt =====
-- Go's fixed-width integers as numbers below 2 ^ 64, with the wrap-around of each operation.
-- An `int64` is its two's complement bit pattern.
use Prim.Native.Nat.{ℕ, ◌+◌, ◌-◌, ◌%◌, ◌^◌}
use mathlib.Core.Bool.{Bool}
use stugan.Base.Tests.{ltb}

abbrev pub word : ℕ
word = 2 ^ 64

abbrev pub add64 : ℕ → ℕ → ℕ
add64 a b = (a + b) % word

abbrev pub sub64 : ℕ → ℕ → ℕ
sub64 a b = (a + word - b) % word

-- `a < b` on int64 bit patterns: shifting by 2 ^ 63 maps the signed order to the unsigned one
abbrev pub lt_i64 : ℕ → ℕ → Bool
lt_i64 a b = ltb ((a + 2 ^ 63) % word) ((b + 2 ^ 63) % word)
