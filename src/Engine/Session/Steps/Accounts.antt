-- ===== src/Engine/Session/Steps/Accounts.antt =====
-- What became of every line that is no longer in a session's backlog.
use stugan.Base.{
  ℕ, ◌+◌, ◌-◌, ◌≤◌, ◌<◌, max, List, [], ◌∷◌, ◌++◌, ◌≡◌, ◌⊎◌, inl, inr, sym, subst, ◌∙◌, length,
  append-nil, ltb, arith, Bool-cases,
}
use stugan.Engine.Session.State.{Session}

-- `k` is one of the numbers.
abbrev pub IsIn : ℕ → List ℕ → Type 0
IsIn k [] = ⊥
IsIn k (n ∷ ns) = (k ≡ n) ⊎ IsIn k ns

-- the last number that has left the backlog
abbrev pub gone : Session → ℕ
gone s = s.seq - length s.buf.lines

-- The application has acknowledged the line or a later one, or the recorded registration that every claim
-- is sent reaches as far, or the line went out to it, or it is one of those that are counted as lost.
abbrev pub IsSettled : Session → List ℕ → List ℕ → ℕ → Type 0
IsSettled s log misses k = (k ≤ s.acked) ⊎ (k ≤ s.burst_covered) ⊎ IsIn k log ⊎ IsIn k misses

-- Every line up to those numbers is settled, where `misses` has one number for each line counted as lost.
pub record IsSettledTo (reported : ℕ) (log : List ℕ) (top : ℕ) (s : Session) : Type 0 where
  pub misses : List ℕ
  pub counted : length misses ≡ reported + s.lost
  pub settled : (k : ℕ) → 0 < k → k ≤ top → IsSettled s log misses k

-- as far as lines are gone or are taken for sent
abbrev pub reach : Session → ℕ
reach s = max (gone s) (max s.sent s.ever_sent)

abbrev pub Account : ℕ → List ℕ → Session → Type 0
Account reported log s = IsSettledTo reported log (reach s) s

pub IsIn-append_left : (k : ℕ) (xs ys : List ℕ) → IsIn k xs → IsIn k (xs ++ ys)
IsIn-append_left k [] ys h = elim h [ ]
IsIn-append_left k (x ∷ xs) ys (inl e) = inl e
IsIn-append_left k (x ∷ xs) ys (inr h) = inr (IsIn-append_left k xs ys h)

pub IsIn-append_right : (k : ℕ) (xs ys : List ℕ) → IsIn k ys → IsIn k (xs ++ ys)
IsIn-append_right k [] ys h = h
IsIn-append_right k (x ∷ xs) ys h = inr (IsIn-append_right k xs ys h)

-- The session moved on: no mark fell, no loss went uncounted, and what is newly gone or taken for sent is
-- acknowledged or recorded.
pub Account-moves :
    (reported reported' : ℕ) (log more : List ℕ) (s t : Session)
    → reported' + t.lost ≡ reported + s.lost
    → s.acked ≤ t.acked
    → s.burst_covered ≤ t.burst_covered
    → reach t ≤ max (reach s) (max t.acked t.burst_covered)
    → Account reported log s
    → Account reported' (log ++ more) t
Account-moves reported reported' log more s t counted acked covered far a = record {
  misses = a.misses;
  counted = a.counted ∙ sym counted;
  settled = λ k pos le. elim (Bool-cases (ltb (max t.acked t.burst_covered) k)) [
    | inr marked ↦ by_marks k (ground (arith, marked))
    | inl past_marks ↦ keeps k (a.settled k pos (ground (arith, past_marks)))
  ];
}
  where
    by_marks : (k : ℕ) → k ≤ max t.acked t.burst_covered → IsSettled t (log ++ more) a.misses k
    by_marks k le = elim (Bool-cases (ltb t.acked k)) [
      | inr marked ↦ inl (ground (arith, marked))
      | inl past_marks ↦ inr (inl (ground (arith, past_marks)))
    ]

    keeps : (k : ℕ) → IsSettled s log a.misses k → IsSettled t (log ++ more) a.misses k
    keeps k (inl e) = inl (omega arith)
    keeps k (inr (inl e)) = inr (inl (omega arith))
    keeps k (inr (inr (inl e))) = inr (inr (inl (IsIn-append_left k log more e)))
    keeps k (inr (inr (inr e))) = inr (inr (inr e))

-- The same where nothing went out.
pub Account-stays :
    (reported reported' : ℕ) (log : List ℕ) (s t : Session)
    → reported' + t.lost ≡ reported + s.lost
    → s.acked ≤ t.acked
    → s.burst_covered ≤ t.burst_covered
    → reach t ≤ max (reach s) (max t.acked t.burst_covered)
    → Account reported log s
    → Account reported' log t
Account-stays reported reported' log s t counted acked covered far a =
    subst (λ ns. Account reported' ns t) (append-nil log)
      (Account-moves reported reported' log [] s t counted acked covered far a)
