-- ===== src/Engine/Buffer/Contents.antt =====
-- What a backlog holds: consecutive sequence numbers, and a byte count that is exact.
use stugan.Base.{
  ℕ, zero, suc, ◌+◌, ◌-◌, ◌≤◌, ◌<◌, ◌^◌, min, max, ltb, if◌then◌else◌, drop_at, drop-nil,
  Bool-cases, inl, inr, sym, ap, ◌∙◌, some, List, [], ◌∷◌, ◌++◌, ◌≡◌, refl, subst, length,
  get_elem?, take, drop, add64, sub64, arith,
}
use stugan.Go.Search.{search-threshold}
use stugan.Engine.Buffer.{
  BufferedLine, LineBuffer, line_cost, push, drop_first, drop_oldest, first_after, freed_by,
  ack_through,
}

-- `ls` carries the numbers `floor + 1`, `floor + 2`, … up to `top`, with no gap.
abbrev pub Consecutive : ℕ → List BufferedLine → ℕ → Type 0
Consecutive floor [] top = floor ≡ top
Consecutive floor (l ∷ ls) top = (l.seq ≡ suc floor) × Consecutive (suc floor) ls top

abbrev pub total : List BufferedLine → ℕ
total [] = 0
total (l ∷ ls) = line_cost l.line + total ls

pub record IsExact (floor top : ℕ) (b : LineBuffer) : Type 0 where
  pub run : Consecutive floor b.lines top
  pub bytes_are : b.bytes ≡ total b.lines
  pub fits : total b.lines < 2 ^ 63

pub Consecutive-at :
    {a b : ℕ} (ls : List BufferedLine) (top : ℕ)
    → a ≡ b
    → Consecutive a ls top
    → Consecutive b ls top
Consecutive-at ls top e = subst (λ floor. Consecutive floor ls top) e

pub Consecutive-length :
    (floor : ℕ) (ls : List BufferedLine) (top : ℕ)
    → Consecutive floor ls top
    → floor + length ls ≡ top
Consecutive-length floor [] top h = omega arith
Consecutive-length floor (l ∷ ls) top h = omega (arith, Consecutive-length (suc floor) ls top h.1)

pub Consecutive-concat :
    (floor : ℕ) (ls : List BufferedLine) (top : ℕ) (l : BufferedLine)
    → Consecutive floor ls top
    → l.seq ≡ suc top
    → Consecutive floor (ls ++ l ∷ []) (suc top)
Consecutive-concat floor [] top l h e = (omega arith, omega arith)
Consecutive-concat floor (x ∷ ls) top l h e = (h.0, Consecutive-concat (suc floor) ls top l h.1 e)

pub Consecutive-drop :
    (n floor : ℕ) (ls : List BufferedLine) (top : ℕ)
    → Consecutive floor ls top
    → n ≤ length ls
    → Consecutive (floor + n) (drop n ls) top
Consecutive-drop zero floor ls top h b = Consecutive-at ls top (omega arith) h
Consecutive-drop (suc n) floor [] top h b = absurd (omega arith)
Consecutive-drop (suc n) floor (l ∷ ls) top h b =
    Consecutive-at (drop n ls) top (omega arith)
      (Consecutive-drop n (suc floor) ls top h.1 (omega arith))

pub total-append : (xs ys : List BufferedLine) → total (xs ++ ys) ≡ total xs + total ys
total-append [] ys = omega arith
total-append (x ∷ xs) ys = omega (arith, total-append xs ys)

pub get_elem?-Consecutive :
    (floor : ℕ) (ls : List BufferedLine) (top i : ℕ)
    → Consecutive floor ls top
    → i < length ls
    → (l : BufferedLine) × (get_elem? ls i ≡ some l) × (l.seq ≡ floor + suc i)
get_elem?-Consecutive floor [] top i h b = absurd (omega arith)
get_elem?-Consecutive floor (l ∷ ls) top zero h b = (l, refl, omega arith)
get_elem?-Consecutive floor (l ∷ ls) top (suc i) h b =
    let (l', e, s) = get_elem?-Consecutive (suc floor) ls top i h.1 (omega arith) in
    (l', e, omega arith)

-- The binary search finds the first line past `seq`.
pub first_after_lem :
    (b : LineBuffer) (floor top seq : ℕ)
    → Consecutive floor b.lines top
    → first_after b seq ≡ min (length b.lines) (seq - floor)
unfolding first_after
first_after_lem b floor top seq h =
    search-threshold (length b.lines) _ (seq - floor)
      λ k lt. let (l, e, s) = get_elem?-Consecutive floor b.lines top k h lt in ground arith

-- A push after the last number keeps the backlog exact, if the bytes stay below 2 ^ 63.
pub push-IsExact :
    (b : LineBuffer) (floor top : ℕ) (l : BufferedLine)
    → IsExact floor top b
    → l.seq ≡ suc top
    → total b.lines + line_cost l.line < 2 ^ 63
    → IsExact floor (suc top) (push b l)
unfolding push
push-IsExact b floor top l v e fits = record {
  run = Consecutive-concat floor b.lines top l v.run e;
  bytes_are = omega (arith, v.bytes_are, total-append b.lines (l ∷ []));
  fits = omega (arith, total-append b.lines (l ∷ []));
}

drop_first-IsExact :
    (ls : List BufferedLine) (b : LineBuffer) (floor top : ℕ)
    → Consecutive floor ls top
    → b.bytes ≡ total ls
    → total ls < 2 ^ 63
    → 0 < length ls
    → IsExact (suc floor) top (drop_first ls b).0
unfolding drop_first
drop_first-IsExact [] b floor top h e fits some_line = absurd (omega arith)
drop_first-IsExact (l ∷ ls) b floor top h e fits some_line = record {
  run = h.1;
  bytes_are = omega arith;
  fits = omega arith;
}

-- What `drop_oldest` gives for a backlog that starts with `l`.
pub drop_oldest-cons :
    (b : LineBuffer) (l : BufferedLine) (ls : List BufferedLine)
    → b.lines ≡ l ∷ ls
    → drop_oldest b ≡ (record { lines = ls; bytes = sub64 b.bytes (line_cost l.line) }, some l)
unfolding drop_oldest drop_first
drop_oldest-cons b l ls e = rw e

-- Dropping takes the line behind the floor, and the floor rises by one.
pub drop_oldest-IsExact :
    (b : LineBuffer) (floor top : ℕ)
    → IsExact floor top b
    → 0 < length b.lines
    → IsExact (suc floor) top (drop_oldest b).0
unfolding drop_oldest
drop_oldest-IsExact b floor top v = drop_first-IsExact b.lines b floor top v.run v.bytes_are v.fits

freed_by-total :
    (freed : ℕ) (ls : List BufferedLine)
    → freed + total ls < 2 ^ 63
    → freed_by freed ls ≡ freed + total ls
unfolding freed_by
freed_by-total freed [] h = omega arith
freed_by-total freed (l ∷ ls) h =
    omega (arith, freed_by-total (add64 freed (line_cost l.line)) ls (omega arith))

total-take-drop :
    (n : ℕ) (ls : List BufferedLine) → total (take n ls) + total (drop n ls) ≡ total ls
total-take-drop zero ls = omega arith
total-take-drop (suc n) [] = omega arith
total-take-drop (suc n) (l ∷ ls) = omega (arith, total-take-drop n ls)

-- The lines past a number, one by one.
abbrev pub past : ℕ → List BufferedLine → List BufferedLine
past n [] = []
past n (l ∷ ls) = if ltb n l.seq then l ∷ past n ls else past n ls

past_all :
    (n floor : ℕ) (ls : List BufferedLine) (top : ℕ)
    → Consecutive floor ls top
    → n ≤ floor
    → past n ls ≡ ls
past_all n floor [] top h le = refl
past_all n floor (l ∷ ls) top h le = ground (arith, past_all n (suc floor) ls top h.1)

-- Cutting at a number is picking the lines past it.
pub drop-past :
    (n floor : ℕ) (ls : List BufferedLine) (top : ℕ)
    → Consecutive floor ls top
    → drop (min (length ls) (n - floor)) ls ≡ past n ls
drop-past n floor [] top h = drop-nil (min 0 (n - floor))
drop-past n floor (l ∷ ls) top h = elim (Bool-cases (ltb n l.seq)) [
  | inl keep ↦
      let none_gone : min (suc (length ls)) (n - floor) ≡ 0 = ground arith in
      rw keep (
        drop_at (l ∷ ls) none_gone
        ∙ ap (◌∷◌ l) (sym (past_all n (suc floor) ls top h.1 (ground arith))))
  | inr skip ↦
      let one_more : min (suc (length ls)) (n - floor) ≡ suc (min (length ls) (n - suc floor)) =
        ground arith in
      rw skip (drop_at (l ∷ ls) one_more ∙ drop-past n (suc floor) ls top h.1)
]

-- An acknowledgement raises the floor to it, if it is past the floor, leaves exactly the lines
-- past it, and says exactly how many bytes went.
pub ack_through-IsExact :
    (b : LineBuffer) (floor top seq : ℕ)
    → IsExact floor top b
    → seq ≤ top
    → IsExact (max floor seq) top (ack_through b seq).0
      × ((ack_through b seq).0.lines ≡ past seq b.lines)
      × ((ack_through b seq).1 + total (ack_through b seq).0.lines ≡ total b.lines)
unfolding ack_through
ack_through-IsExact b floor top seq v hi =
    let n = first_after b seq in
    let len = Consecutive-length floor b.lines top v.run in
    let at = first_after_lem b floor top seq v.run in
    let sums = total-take-drop n b.lines in
    let freed = freed_by-total 0 (take n b.lines) (omega (arith, v.fits)) in
    (
      record {
        run =
            Consecutive-at (drop n b.lines) top (omega arith)
              (Consecutive-drop n floor b.lines top v.run (omega arith));
        bytes_are = omega (arith, v.bytes_are, v.fits);
        fits = omega (arith, v.fits);
      },
      drop_at b.lines at ∙ drop-past seq floor b.lines top v.run,
      omega arith,
    )
