-- ===== src/Go/Strings/Splitting.antt =====
-- Laws of `strings.Split` at a byte.
use stugan.Base.{ℕ, ◌==◌, ◌≡◌, refl, List, [], ◌∷◌, ◌++◌, Bytes, Bool-cases, inl, inr, arith}
use stugan.Go.Strings.{split}
use stugan.Go.Strings.Laws.{Lacks}

module _ (c : ℕ) where
  -- a split text has a first part
  pub split-cons : (s : Bytes) → (p : Bytes) × (ps : List Bytes) × (split s c ≡ p ∷ ps)
  unfolding split
  split-cons [] = ([], [], refl)
  split-cons (x ∷ s) =
      let (p, ps, e) = split-cons s in
      elim (Bool-cases (x == c)) [
        | inl h ↦ ([], p ∷ ps, rw (e, h) refl)
        | inr h ↦ (x ∷ p, ps, rw (e, h) refl)
      ]

  pub split_word : (t : Bytes) → Lacks c t → split t c ≡ t ∷ []
  unfolding split
  split_word [] h = refl
  split_word (x ∷ t) (h, hs) = ground (arith, split_word t hs)

  pub split_first : (t s : Bytes) → Lacks c t → split (t ++ c ∷ s) c ≡ t ∷ split s c
  unfolding split
  split_first [] s h = let (p, ps, e) = split-cons s in rw (e, split) (ground arith)
  split_first (x ∷ t) s (h, hs) = ground (arith, split_first t s hs)
