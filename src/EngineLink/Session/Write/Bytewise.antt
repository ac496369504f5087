-- ===== src/EngineLink/Session/Write/Bytewise.antt =====
-- The text that is cut into lines: how the parts of two texts make the parts of both together.
use stugan.Base.{
  ℕ, ◌≡◌, refl, ap, subst, ◌∙◌, List, [], ◌∷◌, ◌++◌, Bytes, ◌==◌, Bool-cases, inl, inr,
  if◌then◌else◌,
}
use stugan.Go.Strings.{split}
use stugan.Go.Strings.Splitting.{split-cons}

-- a text in front of the first part
abbrev pub onto : Bytes → List Bytes → List Bytes
onto w [] = w ∷ []
onto w (p ∷ ps) = (w ++ p) ∷ ps

-- the parts of one text and of the next
abbrev pub joined : List Bytes → List Bytes → List Bytes
joined [] qs = qs
joined (p ∷ []) qs = onto p qs
joined (p ∷ (r ∷ ps)) qs = p ∷ joined (r ∷ ps) qs

-- the parts that a newline ends, and the last part
abbrev pub complete : List Bytes → List Bytes
complete [] = []
complete (p ∷ []) = []
complete (p ∷ (q ∷ ps)) = p ∷ complete (q ∷ ps)

abbrev pub last_part : List Bytes → Bytes
last_part [] = []
last_part (p ∷ []) = p
last_part (p ∷ (q ∷ ps)) = last_part (q ∷ ps)

-- a text is the one part of itself
abbrev pub IsPartial : Bytes → Type 0
IsPartial w = split w 10 ≡ w ∷ []

-- a byte in front of a text, on its parts
abbrev fronted : ℕ → List Bytes → List Bytes
fronted x ps = elim ps [ [] ↦ [] | q ∷ qs ↦ if x == 10 then [] ∷ (q ∷ qs) else (x ∷ q) ∷ qs ]

fronted-joined :
    (x : ℕ) (p : Bytes) (ps : List Bytes) (q : Bytes) (qs : List Bytes)
    → fronted x (joined (p ∷ ps) (q ∷ qs)) ≡ joined (fronted x (p ∷ ps)) (q ∷ qs)
fronted-joined x p [] q qs = elim (Bool-cases (x == 10)) [ inl h ↦ rw h refl | inr h ↦ rw h refl ]
fronted-joined x p (r ∷ ps) q qs = elim (Bool-cases (x == 10)) [
  | inl h ↦ rw h refl
  | inr h ↦ rw h refl
]

pub split-append : (a b : Bytes) → split (a ++ b) 10 ≡ joined (split a 10) (split b 10)
unfolding split
split-append [] b = let (q, qs, e) = split-cons 10 b in rw e refl
split-append (x ∷ a) b =
    let (p, ps, e) = split-cons 10 a in
    let (q, qs, f) = split-cons 10 b in
    let ih : split (a ++ b) 10 ≡ joined (p ∷ ps) (q ∷ qs) =
      split-append a b ∙ ap (λ ls. joined ls (split b 10)) e ∙ ap (joined (p ∷ ps)) f in
    rw (ih, e, f) (fronted-joined x p ps q qs)

-- A text behind one that is a part of its own.
pub split-IsPartial : (w b : Bytes) → IsPartial w → split (w ++ b) 10 ≡ onto w (split b 10)
split-IsPartial w b h = split-append w b ∙ ap (λ ls. joined ls (split b 10)) h

complete-joined :
    (p : Bytes) (ps qs : List Bytes)
    → complete (joined (p ∷ ps) qs) ≡ complete (p ∷ ps) ++ complete (onto (last_part (p ∷ ps)) qs)
complete-joined p [] qs = refl
complete-joined p (r ∷ []) [] = refl
complete-joined p (r ∷ []) (q ∷ qs) = refl
complete-joined p (r ∷ (t ∷ ps)) qs = ap (◌∷◌ p) (complete-joined r (t ∷ ps) qs)

last_part-fronted :
    (x : ℕ) (p : Bytes) (ps : List Bytes)
    → IsPartial (last_part (p ∷ ps))
    → IsPartial (last_part (fronted x (p ∷ ps)))
unfolding split
last_part-fronted x p [] h = elim (Bool-cases (x == 10)) [
  | inl e ↦ rw e h
  | inr e ↦ rw (e, h, e) refl
]
last_part-fronted x p (r ∷ ps) h = elim (Bool-cases (x == 10)) [ inl e ↦ rw e h | inr e ↦ rw e h ]

-- The last part has no newline.
pub last_part-IsPartial : (a : Bytes) → IsPartial (last_part (split a 10))
unfolding split
last_part-IsPartial [] = refl
last_part-IsPartial (x ∷ a) =
    let (p, ps, e) = split-cons 10 a in
    rw e
      (last_part-fronted x p ps (subst (λ ls. IsPartial (last_part ls)) e (last_part-IsPartial a)))

-- The complete parts of a text and the next: those of the first, and those that the next ends
-- behind the last part of the first.
pub complete-append :
    (a b : Bytes)
    → complete (split (a ++ b) 10)
      ≡ complete (split a 10) ++ complete (split (last_part (split a 10) ++ b) 10)
complete-append a b =
    let (p, ps, e) = split-cons 10 a in
    rw (split-append a b, split-IsPartial (last_part (split a 10)) b (last_part-IsPartial a), e)
      (complete-joined p ps (split b 10))

last_part-joined :
    (p : Bytes) (ps qs : List Bytes)
    → last_part (joined (p ∷ ps) qs) ≡ last_part (onto (last_part (p ∷ ps)) qs)
last_part-joined p [] qs = refl
last_part-joined p (r ∷ []) [] = refl
last_part-joined p (r ∷ []) (q ∷ qs) = refl
last_part-joined p (r ∷ (t ∷ ps)) qs = last_part-joined r (t ∷ ps) qs

pub last_part-append :
    (a b : Bytes)
    → last_part (split (a ++ b) 10) ≡ last_part (split (last_part (split a 10) ++ b) 10)
last_part-append a b =
    let (p, ps, e) = split-cons 10 a in
    rw (split-append a b, split-IsPartial (last_part (split a 10)) b (last_part-IsPartial a), e)
      (last_part-joined p ps (split b 10))
