-- ===== src/EngineLink/Tags/Joined.antt =====
-- Tags that are joined and split again.
use stugan.Base.{
  List, [], ◌∷◌, Bytes, ◌==◌, ◌≡◌, ◌≢◌, subst, ap, ◌∙◌, arith, All, All-append, Bool-cases,
  if_cases, inl, inr,
}
use stugan.Go.Strings.{before, split, join}
use stugan.Go.Strings.Laws.{Lacks}
use stugan.Go.Strings.Splitting.{split-cons, split_word, split_first}

-- What a tag of the line's front must be: no space and no separator in it.
abbrev pub IsTag : Bytes → Type 0
IsTag t = Lacks b' ' t × Lacks b';' t

pub before-Lacks : (s : Bytes) → Lacks b' ' (before s b' ')
unfolding before
before-Lacks [] = ground arith
before-Lacks (x ∷ s) = elim (Bool-cases (x == b' ')) [
  | inl e ↦ rw e (ground arith)
  | inr e ↦ rw e (ground (arith, e), before-Lacks s)
]

pub split-IsTag : (s : Bytes) → Lacks b' ' s → All IsTag (split s b';')
unfolding split
split-IsTag [] h = ground arith
split-IsTag (x ∷ s) (h, hs) =
    let (p, ps, e) = split-cons b';' s in
    let parts = subst (All IsTag) e (split-IsTag s hs) in
    rw (e, split)
      (if_cases (All IsTag) (x == b';') (λ _. ((tt, tt), parts))
        (λ other. (((h, parts.0.0), (ground (arith, other), parts.0.1)), parts.1)))

pub join-Lacks : (ts : List Bytes) → All IsTag ts → Lacks b' ' (join ts (b';' ∷ []))
unfolding join
join-Lacks [] h = h
join-Lacks (t ∷ []) (h, hs) = h.0
join-Lacks (t ∷ (u ∷ ts)) (h, hs) =
    All-append (λ c. c ≢ b' ') t _ h.0 (omega arith, join-Lacks (u ∷ ts) hs)

pub split-join :
    (t : Bytes) (ts : List Bytes)
    → All IsTag (t ∷ ts)
    → split (join (t ∷ ts) (b';' ∷ [])) b';' ≡ t ∷ ts
unfolding join
split-join t [] (h, hs) = split_word b';' t h.1
split-join t (u ∷ ts) (h, hs) =
    split_first b';' t (join (u ∷ ts) (b';' ∷ [])) h.1 ∙ ap (λ rest. t ∷ rest) (split-join u ts hs)
