-- ===== src/EngineLink/Tags/Forged.antt =====
-- No tag under the relay's own prefix comes from the server.
use stugan.Base.{
  ℕ, ◌<◌, Bool, true, false, not, ◌&&◌, ◌||◌, str_eq, List, [], ◌∷◌, ◌++◌, Bytes, codes, ltb,
  if◌then◌else◌, drop, ◌≡◌, ◌≢◌, refl, ap, ◌∙◌, arith, All, All-append, length, ◌⊎◌, Bool-cases,
  if_cases, inl, inr,
}
use stugan.Go.Strings.{
  contains_byte, starts_with_byte, has_prefix, trim_left, before, behind, split, join,
}
use stugan.Go.Strings.Laws.{Lacks, before-append}
use stugan.EngineLink.Tags.Joined.{IsTag, before-Lacks, split-IsTag, join-Lacks, split-join}
use stugan.EngineLink.Tags.{
  is_empty, is_dropped, keep, has_time, own_tags, tagged, tags_of, tag_line,
}

keep-IsTag : (ts : List Bytes) → All IsTag ts → All IsTag (keep ts)
unfolding keep
keep-IsTag [] h = h
keep-IsTag (t ∷ ts) (h, hs) =
    if_cases (All IsTag) (is_dropped t) (λ _. keep-IsTag ts hs) (λ _. (h, keep-IsTag ts hs))

-- What the two formatters promise.
pub record ArePlain (decimal server_time : ℕ → Bytes) : Type 0 where
  pub decimal_plain : (n : ℕ) → IsTag (decimal n)
  pub time_plain : (n : ℕ) → IsTag (server_time n)

module _ (decimal server_time : ℕ → Bytes) (plain : ArePlain decimal server_time) where
  glued : (p s : Bytes) → IsTag p → IsTag s → IsTag (p ++ s)
  glued p s hp hs =
      (All-append (λ c. c ≢ b' ') p s hp.0 hs.0, All-append (λ c. c ≢ b';') p s hp.1 hs.1)

  own_tags-IsTag :
      (timed : Bool) (seq at : ℕ) (replay : Bool)
      → All IsTag (own_tags decimal server_time timed seq at replay)
  unfolding own_tags
  own_tags-IsTag timed seq at replay =
      All-append IsTag _ _
        (if_cases (All IsTag) (ltb 0 seq)
          (λ _. (
            glued (codes "stugan/seq=") (decimal seq) (ground arith) (plain.decimal_plain seq),
            tt,
          ))
          (λ _. tt))
        (All-append IsTag _ _ (if_cases (All IsTag) replay (λ _. (ground arith, tt)) (λ _. tt)) (
          if_cases (All IsTag) (not timed && ltb 0 at)
            (λ _. (glued (codes "time=") (server_time at) (ground arith) (plain.time_plain at), tt))
            (λ _. tt)))

tags_of-tagged :
    (t : Bytes) (ts : List Bytes) (rest : Bytes)
    → All IsTag (t ∷ ts)
    → tags_of (tagged (t ∷ ts) rest) ≡ t ∷ ts
unfolding tagged
tags_of-tagged t ts rest h =
    let all = join (t ∷ ts) (b';' ∷ []) in
    let front : before (b'@' ∷ (all ++ b' ' ∷ rest)) b' ' ≡ b'@' ∷ all =
      before-append b' ' (b'@' ∷ all) rest (omega arith, join-Lacks (t ∷ ts) h) in
    ap (λ s. split (drop 1 s) b';') front ∙ split-join t ts h

-- A tag that the relay lets through: not empty, and its key not under the relay's prefix.
abbrev pub IsForeign : Bytes → Type 0
IsForeign t = (t ≢ []) × (has_prefix (before t b'=') (codes "stugan/") ≡ false)

-- The tags of a line, and those of them that are let through, in order.
pub data Filtered : List Bytes → List Bytes → Type 0 where
  no_tags : Filtered [] []
  stays :
      {t : Bytes} {ts ks : List Bytes} → IsForeign t → Filtered ts ks → Filtered (t ∷ ts) (t ∷ ks)
  goes :
      {t : Bytes} {ts ks : List Bytes}
      → (t ≡ []) ⊎ (has_prefix (before t b'=') (codes "stugan/") ≡ true)
      → Filtered ts ks
      → Filtered (t ∷ ts) ks

is_dropped_cases :
    (t : Bytes)
    → ((is_dropped t ≡ true) × ((t ≡ []) ⊎ (has_prefix (before t b'=') (codes "stugan/") ≡ true)))
      ⊎ ((is_dropped t ≡ false) × IsForeign t)
unfolding is_dropped is_empty
is_dropped_cases [] = inl (refl, inl refl)
is_dropped_cases (c ∷ t) = elim (Bool-cases (has_prefix (before (c ∷ t) b'=') (codes "stugan/"))) [
  | inl e ↦ inl (e, inr e)
  | inr e ↦ inr (e, ((λ same. cc), e))
]

keep-Filtered : (ts : List Bytes) → Filtered ts (keep ts)
unfolding keep
keep-Filtered [] = no_tags
keep-Filtered (t ∷ ts) = elim (is_dropped_cases t) [
  | inl (e, why) ↦ rw e (goes why (keep-Filtered ts))
  | inr (e, why) ↦ rw e (stays why (keep-Filtered ts))
]

-- whether one of the tags is the time
abbrev pub is_timed : List Bytes → Bool
is_timed [] = false
is_timed (t ∷ ts) = str_eq (before t b'=') (codes "time") || is_timed ts

has_time-keep : (ts : List Bytes) → has_time ts ≡ is_timed (keep ts)
unfolding has_time keep
has_time-keep [] = refl
has_time-keep (t ∷ ts) = elim (Bool-cases (is_dropped t)) [
  | inl e ↦ rw e (has_time-keep ts)
  | inr e ↦ rw e (ap (λ b. str_eq (before t b'=') (codes "time") || b) (has_time-keep ts))
]

-- The relay's own tags, in front of those let through: the number, if there is one; that the line is a
-- replay; and when it came, if that is known and no tag let through says so.
abbrev pub relay_tags : (ℕ → Bytes) → (ℕ → Bytes) → List Bytes → ℕ → ℕ → Bool → List Bytes
relay_tags decimal server_time kept seq at replay =
    (if ltb 0 seq then (codes "stugan/seq=" ++ decimal seq) ∷ [] else [])
    ++ ((if replay then codes "stugan/replay" ∷ [] else [])
        ++ (if not (is_timed kept) && ltb 0 at then (codes "time=" ++ server_time at) ∷ [] else []))

own_tags-relay_tags :
    (decimal server_time : ℕ → Bytes) (kept : List Bytes) (seq at : ℕ) (replay : Bool)
    → own_tags decimal server_time (is_timed kept) seq at replay
      ≡ relay_tags decimal server_time kept seq at replay
unfolding own_tags
own_tags-relay_tags decimal server_time kept seq at replay = refl

-- the tags between the `@` of a line and its first space
abbrev pub tags_in : Bytes → List Bytes
tags_in line = split (drop 1 (before line b' ')) b';'

-- the tags that a line brings with it
abbrev pub given_tags : Bytes → List Bytes
given_tags line = if starts_with_byte line b'@' then tags_in line else []

Lacks-drop : (s : Bytes) → Lacks b' ' s → Lacks b' ' (drop 1 s)
Lacks-drop [] h = h
Lacks-drop (x ∷ s) h = h.1

given_tags-IsTag : (line : Bytes) → All IsTag (given_tags line)
given_tags-IsTag line =
    if_cases (All IsTag) (starts_with_byte line b'@')
      (λ _. split-IsTag _ (Lacks-drop _ (before-Lacks line))) (λ _. tt)

tags_of-tagged_some :
    (ts : List Bytes) (rest : Bytes) → All IsTag ts → 0 < length ts → tags_of (tagged ts rest) ≡ ts
tags_of-tagged_some [] rest h some_tag = absurd (omega arith)
tags_of-tagged_some (t ∷ ts) rest h some_tag = tags_of-tagged t ts rest h

own_tags_some :
    (decimal server_time : ℕ → Bytes) (timed : Bool) (seq at : ℕ) (replay : Bool)
    (more : List Bytes)
    → (0 < seq) ⊎ (replay ≡ true)
    → 0 < length (own_tags decimal server_time timed seq at replay ++ more)
unfolding own_tags
own_tags_some decimal server_time timed seq at replay more (inl numbered) =
    let e : ltb 0 seq ≡ true = ground arith in rw e (omega arith)
own_tags_some decimal server_time timed seq at replay more (inr again) =
    rw again
      (elim (Bool-cases (ltb 0 seq)) [ inl e ↦ rw e (omega arith) | inr e ↦ rw e (omega arith) ])

abbrev behind_tags : Bytes → Bytes
behind_tags line = if starts_with_byte line b'@' then trim_left (behind line b' ') b' ' else line

tag_line-tagged :
    (decimal server_time : ℕ → Bytes) (line : Bytes) (seq at : ℕ) (replay : Bool)
    → (starts_with_byte line b'@' ≡ true → contains_byte line b' ' ≡ true)
    → tag_line decimal server_time line seq at replay
      ≡ tagged
          (own_tags decimal server_time (has_time (given_tags line)) seq at replay
            ++ keep (given_tags line))
          (behind_tags line)
unfolding tag_line has_time keep
tag_line-tagged decimal server_time line seq at replay complete =
    elim (Bool-cases (starts_with_byte line b'@')) [
      | inl e ↦ rw (e, complete e) refl
      | inr e ↦ rw e refl
    ]

-- A line that the relay numbers or marks as a replay, if it has no tags or has them complete with a space,
-- goes on with the relay's own tags and behind them those of its tags that are not empty and have no key
-- under "stugan/", all of them, in order. The relay's own are "stugan/seq=" with the number if it is not 0,
-- "stugan/replay" for a replay, and "time=" with the time if it is known and no tag let through is the time.
pub tags_of-tag_line :
    (decimal server_time : ℕ → Bytes) (line : Bytes) (seq at : ℕ) (replay : Bool)
    → ArePlain decimal server_time
    → (starts_with_byte line b'@' ≡ true → contains_byte line b' ' ≡ true)
    → (0 < seq) ⊎ (replay ≡ true)
    → (kept : List Bytes) × (tags_in (tag_line decimal server_time line seq at replay)
        ≡ relay_tags decimal server_time kept seq at replay ++ kept)
      × Filtered (given_tags line) kept
tags_of-tag_line decimal server_time line seq at replay plain complete numbered =
    let timed = has_time (given_tags line) in
    let kept = keep (given_tags line) in
    let own = own_tags decimal server_time timed seq at replay in
    let fine =
      All-append IsTag own kept (own_tags-IsTag decimal server_time plain timed seq at replay)
        (keep-IsTag (given_tags line) (given_tags-IsTag line)) in
    let some_tag = own_tags_some decimal server_time timed seq at replay kept numbered in
    let own_is : own ≡ relay_tags decimal server_time kept seq at replay =
      ap (λ b. own_tags decimal server_time b seq at replay) (has_time-keep (given_tags line))
      ∙ own_tags-relay_tags decimal server_time kept seq at replay in
    (
      kept,
      ap tags_in (tag_line-tagged decimal server_time line seq at replay complete)
          ∙ tags_of-tagged_some (own ++ kept) (behind_tags line) fine some_tag
          ∙ ap (λ ts. ts ++ kept) own_is,
      keep-Filtered (given_tags line),
    )
