-- ===== src/EngineLink/Examples.antt =====
-- A line whose tags try to pass for the relay's own.
use stugan.Base.{List, ℕ, false, ◌++◌, Bytes, codes, ◌≡◌, refl, arith, inl, str_eq}
use stugan.Go.Strings.{
  contains_byte, before, split, has_prefix, behind, trim_left, starts_with_byte, join,
}
use stugan.EngineLink.Tags.{tag_line}
use stugan.EngineLink.Tags.Forged.{
  ArePlain, Filtered, relay_tags, tags_in, given_tags, tags_of-tag_line,
}

abbrev decimal : ℕ → Bytes
decimal _ = codes "7"

abbrev server_time : ℕ → Bytes
server_time _ = codes "2026-01-01T00:00:00.000Z"

plain : ArePlain decimal server_time
plain = record {
  decimal_plain = λ _. (ground arith, ground arith);
  time_plain = λ _. (ground arith, ground arith);
}

abbrev forged : Bytes
forged = codes "@stugan/seq=9;msgid=x PING"

numbered : tag_line decimal server_time forged 7 0 false ≡ codes "@stugan/seq=7;msgid=x PING"
unfolding str_eq tag_line contains_byte has_prefix before split behind trim_left starts_with_byte
    join
numbered = refl

tags_of-tag_line_example :
    (kept : List Bytes) × (tags_in (tag_line decimal server_time forged 7 1000 false)
      ≡ relay_tags decimal server_time kept 7 1000 false ++ kept)
    × Filtered (given_tags forged) kept
unfolding contains_byte
tags_of-tag_line_example =
    tags_of-tag_line decimal server_time forged 7 1000 false plain (λ _. refl) (inl (omega arith))
