-- ===== src/Engine/IrcLine/Params.antt =====
-- The parameters of a line: the loop takes a byte at least in each round.
use stugan.Base.{
  ℕ, zero, suc, ◌≤◌, ◌<◌, ◌≡◌, ◌≢◌, refl, ap, sym, ◌∙◌, List, [], ◌∷◌, ◌++◌, Bytes, ◌==◌, ==→eq,
  length-append, arith, length, Bool-cases, inl, inr, append_assoc, append-nil,
}
use stugan.Go.Strings.{trim_left, before, behind}
use stugan.Go.Strings.Laws.{
  Lacks, StartsOff, length-behind, length-trim_left, trim_left_none, before-append, behind-append,
  before_all, behind_all,
}
use stugan.Engine.IrcLine.{params_loop, params_of}

-- A round's text, without its leading spaces.
data Trimmed (rest : Bytes) : Type 0 where
  empty : trim_left rest b' ' ≡ [] → Trimmed rest
  starts : (c : ℕ) (s : Bytes) → trim_left rest b' ' ≡ c ∷ s → c ≢ b' ' → Trimmed rest

trimmed : (rest : Bytes) → Trimmed rest
unfolding trim_left
trimmed [] = empty refl
trimmed (x ∷ s) = elim (Bool-cases (x == b' ')) [
  | inl space ↦ elim (trimmed s) [
    | empty e ↦ empty (rw space e)
    | starts c t e ne ↦ starts c t (rw space e) ne
  ]
  | inr other ↦ starts x s (rw other) (ground arith)
]

length-behind_lt : (c : ℕ) (s : Bytes) → c ≢ b' ' → length (behind (c ∷ s) b' ') < suc (length s)
unfolding behind
length-behind_lt c s ne = ground (arith, length-behind b' ' s)

-- What one round does with fuel left.
params_loop_colon :
    (fuel c : ℕ) (s rest : Bytes) (ps : List Bytes)
    → trim_left rest b' ' ≡ c ∷ s
    → c ≡ b':'
    → params_loop (suc fuel) rest ps ≡ ps ++ s ∷ []
unfolding params_loop
params_loop_colon fuel c s rest ps e colon = rw (e, params_loop) (ground arith)

params_loop_word :
    (fuel c : ℕ) (s rest : Bytes) (ps : List Bytes)
    → trim_left rest b' ' ≡ c ∷ s
    → c ≢ b':'
    → params_loop (suc fuel) rest ps
      ≡ params_loop fuel (behind (c ∷ s) b' ') (ps ++ before (c ∷ s) b' ' ∷ [])
unfolding params_loop
params_loop_word fuel c s rest ps e word = rw (e, params_loop) (ground arith)

params_loop_done :
    (fuel : ℕ) (rest : Bytes) (ps : List Bytes)
    → trim_left rest b' ' ≡ []
    → params_loop fuel rest ps ≡ ps
unfolding params_loop
params_loop_done zero rest ps e = refl
params_loop_done (suc fuel) rest ps e = rw (e, params_loop)

shorter :
    (n c : ℕ) (s rest : Bytes)
    → trim_left rest b' ' ≡ c ∷ s
    → c ≢ b' '
    → length rest ≤ suc n
    → length (behind (c ∷ s) b' ') ≤ n
shorter n c s rest e ne h =
    omega (arith, length-behind_lt c s ne, ap length e, length-trim_left b' ' rest)

nil_or_pos : (rest : Bytes) → length rest ≤ 0 → trim_left rest b' ' ≡ []
unfolding trim_left
nil_or_pos [] h = refl
nil_or_pos (x ∷ s) h = absurd (omega arith)

-- The accumulator is a prefix of the result, and any fuel from the text's length on gives the
-- same parameters.
pub params_loop_enough :
    (f g : ℕ) (rest : Bytes) (ps : List Bytes)
    → length rest ≤ f
    → length rest ≤ g
    → params_loop f rest ps ≡ ps ++ params_loop g rest []
params_loop_enough zero g rest ps hf hg =
    let e = nil_or_pos rest hf in
    rw (params_loop_done zero rest ps e, params_loop_done g rest [] e) (sym (append-nil ps))
params_loop_enough (suc f) zero rest ps hf hg =
    let e = nil_or_pos rest hg in
    rw (params_loop_done (suc f) rest ps e, params_loop_done zero rest [] e) (sym (append-nil ps))
params_loop_enough (suc f) (suc g) rest ps hf hg = elim (trimmed rest) [
  | empty e ↦
      rw (params_loop_done (suc f) rest ps e, params_loop_done (suc g) rest [] e)
        (sym (append-nil ps))
  | starts c s e ne ↦ elim (Bool-cases (c == b':')) [
    | inl colon ↦
        let is = ==→eq c b':' colon in
        rw (params_loop_colon f c s rest ps e is, params_loop_colon g c s rest [] e is)
    | inr word ↦
        let ne' : c ≢ b':' = ground arith in
        let p = before (c ∷ s) b' ' in
        let more = behind (c ∷ s) b' ' in
        let less_f = shorter f c s rest e ne hf in
        let less_g = shorter g c s rest e ne hg in
        params_loop_word f c s rest ps e ne'
        ∙ params_loop_enough f g more (ps ++ p ∷ []) less_f less_g
        ∙ append_assoc ps (p ∷ []) (params_loop g more [])
        ∙ ap (◌++◌ ps) (
            sym (
              params_loop_word g c s rest [] e ne'
              ∙ params_loop_enough g g more (p ∷ []) less_g less_g))
  ]
]

-- A first parameter, and the ones behind it.
pub params_of-word :
    (p more : Bytes)
    → Lacks b' ' p
    → StartsOff b' ' p
    → StartsOff b':' p
    → params_of (p ++ b' ' ∷ more) ≡ p ∷ params_of more
unfolding params_of
params_of-word [] more h off colon = absurd off
params_of-word (x ∷ p) more h off colon =
    let rest = p ++ b' ' ∷ more in
    let e = trim_left_none b' ' (x ∷ p) (b' ' ∷ more) off in
    params_loop_word (length rest) x rest (x ∷ rest) [] e colon
    ∙ (λ i.
        params_loop (length rest) (behind-append b' ' (x ∷ p) more h i)
          (before-append b' ' (x ∷ p) more h i ∷ []))
    ∙ params_loop_enough (length rest) (length more) more ((x ∷ p) ∷ [])
        (omega (arith, length-append p (b' ' ∷ more))) (omega arith)

trimmed_word : (x : ℕ) (p : Bytes) → x ≢ b' ' → trim_left (x ∷ p) b' ' ≡ x ∷ p
unfolding trim_left
trimmed_word x p ne = ground arith

trimmed_nil : trim_left [] b' ' ≡ []
unfolding trim_left
trimmed_nil = refl

-- A last parameter with no space in it.
pub params_of-one :
    (p : Bytes) → Lacks b' ' p → StartsOff b' ' p → StartsOff b':' p → params_of p ≡ p ∷ []
unfolding params_of
params_of-one [] h off colon = absurd off
params_of-one (x ∷ p) h off colon =
    params_loop_word (length p) x p (x ∷ p) [] (trimmed_word x p off) colon
    ∙ (λ i. params_loop (length p) (behind_all b' ' (x ∷ p) h i) (before_all b' ' (x ∷ p) h i ∷ []))
    ∙ params_loop_done (length p) [] ((x ∷ p) ∷ []) trimmed_nil

-- A trailing parameter is everything behind its colon.
pub params_of-trailing : (s : Bytes) → params_of (b':' ∷ s) ≡ s ∷ []
unfolding params_of trim_left
params_of-trailing s = refl

pub params_of-nil : params_of [] ≡ []
unfolding params_of
params_of-nil = refl
