-- ===== src/Core/ChatHistory/Command/Asked.antt =====
-- A line of /chathistory asks for a sensible number of lines, of a buffer that the server knows.
use stugan.Base.{
  ℕ, zero, suc, ◌≤◌, true, false, not, ◌||◌, ◌⊎◌, inl, inr, ◌≡◌, refl, List, [], ◌∷◌, Bytes, codes,
  str_eq, lt_i64, if_cases, option_cases, arith,
}
use stugan.Go.Strings.{to_upper}
use stugan.Core.ChatHistory.Command.{
  timestamp_ref, Go, Error, max_chat_history, request_line, spaced, refs, has_target, buffer_line,
  latest_line, targets_line, line_for, split_limit, subcommand, chat_history_line, last_arg,
}

-- The line is well made: its limit is from 1 to 1000, and its first word is the buffer, a channel or a query,
-- unless it asks for targets.
pub record IsRequest (go : Go) (buffer : Bytes) (line : Bytes) : Type 0 where
  pub verb : Bytes
  pub words : List Bytes
  pub limit : ℕ
  pub same : line ≡ request_line go verb (spaced words) limit
  pub at_least : 1 ≤ limit
  pub at_most : limit ≤ max_chat_history
  pub target :
      (verb ≡ codes "TARGETS")
      ⊎ ((rs : List Bytes) × (words ≡ buffer ∷ rs) × (has_target buffer ≡ true))

-- an error, or a line that is well made
abbrev pub IsAnswer : Go → Bytes → Error ⊎ Bytes → Type 0
IsAnswer go buffer (inl e) = Unit
IsAnswer go buffer (inr line) = IsRequest go buffer line

module _ (go : Go) (buffer : Bytes) (limit : ℕ) (low : 1 ≤ limit)
    (high : limit ≤ max_chat_history) where
  buffer_line-IsAnswer :
      (sub verb : Bytes) (args : List Bytes) (want : ℕ)
      → IsAnswer go buffer (buffer_line go buffer sub verb args limit want)
  unfolding buffer_line
  buffer_line-IsAnswer sub verb args want =
      if_cases (IsAnswer go buffer) (not (has_target buffer)) (λ _. tt)
        (λ has. with_refs (ground (arith, has)) (refs go args want))
    where
      with_refs :
          has_target buffer ≡ true
          → (r : Error ⊎ List Bytes)
          → IsAnswer go buffer (elim r [
            | inl e ↦ inl e
            | inr rs ↦ inr (request_line go verb (spaced (buffer ∷ rs)) limit)
          ])
      with_refs has (inl e) = tt
      with_refs has (inr rs) = record {
        verb = verb;
        words = buffer ∷ rs;
        limit = limit;
        same = refl;
        at_least = low;
        at_most = high;
        target = inr (rs, refl, has);
      }

  latest_line-IsAnswer : (args : List Bytes) → IsAnswer go buffer (latest_line go buffer args limit)
  unfolding latest_line
  latest_line-IsAnswer [] =
      if_cases (IsAnswer go buffer) (not (has_target buffer)) (λ _. tt)
        (λ has. record {
          verb = codes "LATEST";
          words = buffer ∷ (codes "*" ∷ []);
          limit = limit;
          same = refl;
          at_least = low;
          at_most = high;
          target = inr (codes "*" ∷ [], refl, ground (arith, has));
        })
  latest_line-IsAnswer (a ∷ args) =
      buffer_line-IsAnswer (codes "latest") (codes "LATEST") (a ∷ args) 1

  targets :
      (words : List Bytes)
      → IsRequest go buffer (request_line go (codes "TARGETS") (spaced words) limit)
  targets words = record {
    verb = codes "TARGETS";
    words = words;
    limit = limit;
    same = refl;
    at_least = low;
    at_most = high;
    target = inl refl;
  }

  targets_line-IsAnswer :
      (args : List Bytes) (now : ℕ) → IsAnswer go buffer (targets_line go args now limit)
  unfolding targets_line
  targets_line-IsAnswer [] now =
      targets (timestamp_ref go (go.week_ago now) ∷ (timestamp_ref go (go.minute_on now) ∷ []))
  targets_line-IsAnswer (a ∷ args) now = with_refs (refs go (a ∷ args) 2)
    where
      with_refs :
          (r : Error ⊎ List Bytes)
          → IsAnswer go buffer (elim r [
            | inl e ↦ inl e
            | inr rs ↦ inr (request_line go (codes "TARGETS") (spaced rs) limit)
          ])
      with_refs (inl e) = tt
      with_refs (inr rs) = targets rs

  line_for-IsAnswer :
      (sub : Bytes) (args : List Bytes) (now : ℕ)
      → IsAnswer go buffer (line_for go buffer sub args limit now)
  unfolding line_for
  line_for-IsAnswer sub args now =
      let P = IsAnswer go buffer in
      if_cases P (str_eq sub (codes "latest")) (λ _. latest_line-IsAnswer args)
        (λ _.
          if_cases P
            (str_eq sub (codes "before")
              || (str_eq sub (codes "after") || str_eq sub (codes "around")))
            (λ _. buffer_line-IsAnswer sub (to_upper go.unicode_upper sub) args 1)
            (λ _.
              if_cases P (str_eq sub (codes "between"))
                (λ _. buffer_line-IsAnswer sub (codes "BETWEEN") args 2)
                (λ _.
                  if_cases P (str_eq sub (codes "targets")) (λ _. targets_line-IsAnswer args now)
                    (λ _. tt))))

-- a limit in range, or an error
InRange : Error ⊎ (ℕ × List Bytes) → Type 0
InRange (inl e) = Unit
InRange (inr lr) = (1 ≤ lr.0) × (lr.0 ≤ max_chat_history)

positive : (v : ℕ) → lt_i64 v 1 ≡ false → 1 ≤ v
positive zero h = absurd (ground (arith, h))
positive (suc v) h = omega arith

split_limit-InRange : (go : Go) (args : List Bytes) → InRange (split_limit go args)
unfolding split_limit InRange
split_limit-InRange go [] = (omega arith, omega arith)
split_limit-InRange go (a ∷ args) =
    option_cases InRange (go.atoi (last_arg a args)) (λ _. (omega arith, omega arith))
      (λ v _.
        if_cases InRange (lt_i64 v 1) (λ _. tt)
          (λ ok. let low = positive v ok in (omega (arith, low), omega arith)))

-- Whatever is typed, /chathistory either answers with an error or sends a well-made line: it asks for at least
-- one line and at most 1000, and of the buffer itself, which is then a channel or a query, unless it asks for
-- the targets.
pub chat_history_line-IsAnswer :
    (go : Go) (buffer : Bytes) (args : List Bytes) (now : ℕ)
    → IsAnswer go buffer (chat_history_line go buffer args now)
unfolding chat_history_line InRange
chat_history_line-IsAnswer go buffer args now =
    let (sub, rest) = subcommand go args in
    with_limit sub (split_limit go rest) (split_limit-InRange go rest)
  where
    with_limit :
        (sub : Bytes) (r : Error ⊎ (ℕ × List Bytes))
        → InRange r
        → IsAnswer go buffer
            (elim r [ inl e ↦ inl e | inr lr ↦ line_for go buffer sub lr.1 lr.0 now ])
    with_limit sub (inl e) h = tt
    with_limit sub (inr lr) h = line_for-IsAnswer go buffer lr.0 h.0 h.1 sub lr.1 now
