-- ===== src/Engine/Buffer.antt =====
-- internal/engine/buffer.go: the backlog of one session. `compact` only moves the lines to a
-- fresh array, so it changes no value here.
pub mod Contents
use stugan.Base.{
  ℕ, zero, suc, ◌+◌, ◌-◌, min, Bool, true, false, Option, none, some, List, [], ◌∷◌, ◌++◌, Bytes,
  ltb, length, get_elem?, take, drop, add64, sub64,
}
use stugan.Go.Search.{search}

pub record BufferedLine : Type 0 where
  pub seq : ℕ
  pub at : ℕ
  pub line : Bytes

unfoldable pub line_cost : Bytes → ℕ
line_cost line = length line + 32

-- `bytes` is an int64.
pub record LineBuffer : Type 0 where
  pub lines : List BufferedLine
  pub bytes : ℕ

unfoldable pub push : LineBuffer → BufferedLine → LineBuffer
push b l = record b { lines = b.lines ++ l ∷ []; bytes = add64 b.bytes (line_cost l.line) }

drop_first : List BufferedLine → LineBuffer → LineBuffer × Option BufferedLine
drop_first [] b = (b, none)
drop_first (l ∷ ls) b = (record b { lines = ls; bytes = sub64 b.bytes (line_cost l.line) }, some l)

unfoldable pub drop_oldest : LineBuffer → LineBuffer × Option BufferedLine
unfolding drop_first
drop_oldest b = drop_first b.lines b

-- `sort.Search(len(b.lines), func(i) bool { return b.lines[i].seq > seq })`
unfoldable pub first_after : LineBuffer → ℕ → ℕ
first_after b seq =
    search (length b.lines)
      λ i. elim (get_elem? b.lines i) [ some l ↦ ltb seq l.seq | none ↦ false ]

-- `freed += lineCost(b.lines[i].line)`, from an accumulator
freed_by : ℕ → List BufferedLine → ℕ
freed_by freed [] = freed
freed_by freed (l ∷ ls) = freed_by (add64 freed (line_cost l.line)) ls

unfoldable pub ack_through : LineBuffer → ℕ → LineBuffer × ℕ
unfolding freed_by first_after
ack_through b seq =
    let n = first_after b seq in
    let freed = freed_by 0 (take n b.lines) in
    (record b { lines = drop n b.lines; bytes = sub64 b.bytes freed }, freed)

unfoldable pub after : LineBuffer → ℕ → ℕ → List BufferedLine
unfolding first_after
after b seq limit = take limit (drop (first_after b seq) b.lines)

unfoldable pub count_after : LineBuffer → ℕ → ℕ
unfolding first_after
count_after b seq = length b.lines - first_after b seq

unfoldable pub clear : LineBuffer → LineBuffer × ℕ
clear b = (record { lines = []; bytes = 0 }, b.bytes)
