-- ===== src/Go/Search.antt =====
-- Package sort: `Search`, a binary search for the least index at which a test holds.
use stugan.Base.{
  ℕ, zero, suc, ◌+◌, ◌/◌, ◌≤◌, ◌<◌, min, Bool, true, false, ◌≡◌, ltb, leb, arith, Bool-cases, inl,
  inr,
}

-- `for i < j { h := (i+j)/2; if !f(h) { i = h+1 } else { j = h } }`
search_loop : ℕ → (ℕ → Bool) → ℕ → ℕ → ℕ
search_loop zero f i j = i
search_loop (suc n) f i j = elim (ltb i j) [
  | true ↦ elim (f ((i + j) / 2)) [
    | true ↦ search_loop n f i ((i + j) / 2)
    | false ↦ search_loop n f ((i + j) / 2 + 1) j
  ]
  | false ↦ i
]

-- `j - i` falls in each round, so `n` rounds are enough.
unfoldable pub search : ℕ → (ℕ → Bool) → ℕ
unfolding search_loop
search n f = search_loop n f 0 n

search_loop-threshold :
    (fuel : ℕ) (f : ℕ → Bool) (i j n t : ℕ)
    → ((k : ℕ) → k < n → f k ≡ leb t k)
    → j ≤ i + fuel
    → i ≤ min n t
    → min n t ≤ j
    → j ≤ n
    → search_loop fuel f i j ≡ min n t
unfolding search_loop
search_loop-threshold zero f i j n t h d lo hi b = omega arith
search_loop-threshold (suc fuel) f i j n t h d lo hi b = elim (Bool-cases (ltb i j)) [
  | inl more ↦ ground (
    arith,
    h ((i + j) / 2),
    search_loop-threshold fuel f i ((i + j) / 2) n t h,
    search_loop-threshold fuel f ((i + j) / 2 + 1) j n t h,
  )
  | inr done ↦ ground arith
]

-- Where the test holds exactly from `t` on, the search gives `t`, or `n` if `t` is past the end.
pub search-threshold :
    (n : ℕ) (f : ℕ → Bool) (t : ℕ) → ((k : ℕ) → k < n → f k ≡ leb t k) → search n f ≡ min n t
unfolding search
search-threshold n f t h =
    search_loop-threshold n f 0 n n t h (omega arith) (omega arith) (omega arith) (omega arith)
