-- ===== src/Engine/Session/Stream/Draining.antt =====
-- Pulling until nothing is owed, as the link's writer does.
use stugan.Base.{
  ℕ, zero, suc, ◌≤◌, ◌<◌, Bool, true, false, not, ◌&&◌, List, [], ◌∷◌, ◌++◌, ◌≡◌, refl, subst,
  length, take, drop, map, ap, sym, ◌∙◌, ◌==◌, if◌then◌else◌, if_cases, arith, Bool-cases, inl, inr,
  append_assoc, append-nil, take-append-drop, length-drop, drop-nil,
}
use mathlib.Core.List.{map-append}
use stugan.Engine.Buffer.{BufferedLine, count_after}
use stugan.Engine.Session.State.{Session, held_by, is_link, is_closed, is_dialing}
use stugan.Engine.Session.Stream.{line_frame, pull, pull_lines, pull_close, Pulled}
use stugan.Engine.Session.Stream.Sound.{IsSound}
use stugan.Engine.Session.Stream.Delivery.{
  owed, advanced, advanced-IsSound, closed_frame, Pulls, pull-Pulls,
}
use stugan.EngineProto.{Frame}

-- `rounds` pulls of at most `limit` lines; the frames of all, in order.
abbrev pub drain : ℕ → ℕ → ℕ → Session → Session × List Frame
drain zero l limit s = (s, [])
drain (suc rounds) l limit s =
    let (s', p) = pull s l limit in let (t, out) = drain rounds l limit s' in (t, p.out ++ out)

-- the closed frame, if the socket is gone and it has not gone out
abbrev pub closing : Session → List Frame
closing s = if is_closed s.state && not s.finished then closed_frame s ∷ [] else []

-- The fields that decide what a pull gives, and that it leaves alone.
record SameClaim (s t : Session) : Type 0 where
  same_handle : t.handle ≡ s.handle
  same_link : t.link ≡ s.link
  same_state : t.state ≡ s.state
  no_ctrl : t.ctrl ≡ []

-- A property of the session behind a pull holds if it holds behind the batch, with and without
-- the closed frame.
pub behind_pull :
    (P : Session → Type 0) (s s' : Session) (limit : ℕ) (p : Pulled)
    → Pulls s limit s' p
    → P (advanced s limit)
    → P (record (advanced s limit) { finished = true })
    → P s'
behind_pull P s s' limit p q open_case end_case = subst P (sym q.moved) (pick p.done)
  where
    pick :
        (b : Bool)
        → P (if b then record (advanced s limit) { finished = true } else advanced s limit)
    pick true = end_case
    pick false = open_case

finished-IsSound :
    (reported : ℕ) (s : Session)
    → IsSound reported s
    → IsSound reported (record s { finished = true })
finished-IsSound reported s v = record {
  floor = v.floor;
  buffer = v.buffer;
  seq_fits = v.seq_fits;
  acked_le = v.acked_le;
  sent_le = v.sent_le;
  ever_le = v.ever_le;
  covered_le = v.covered_le;
  no_silent_loss = v.no_silent_loss;
  no_false_loss = v.no_false_loss;
}

pub pulled-IsSound :
    (reported : ℕ) (s s' : Session) (limit : ℕ) (p : Pulled)
    → IsSound reported s
    → Pulls s limit s' p
    → IsSound reported s'
pulled-IsSound reported s s' limit p v q =
    let v' = advanced-IsSound reported s limit v in
    behind_pull (IsSound reported) s s' limit p q v'
      (finished-IsSound reported (advanced s limit) v')

pulled-SameClaim : (s s' : Session) (limit : ℕ) (p : Pulled) → Pulls s limit s' p → SameClaim s s'
unfolding advanced
pulled-SameClaim s s' limit p q =
    behind_pull (SameClaim s) s s' limit p q
      (record { same_handle = refl; same_link = refl; same_state = refl; no_ctrl = refl })
      (record { same_handle = refl; same_link = refl; same_state = refl; no_ctrl = refl })

pulled-closing :
    (s s' : Session) (limit : ℕ) (p : Pulled)
    → Pulls s limit s' p
    → closing s' ≡ (if p.done then [] else closing s)
unfolding advanced
pulled-closing s s' limit p q = ap closing q.moved ∙ pick p.done
  where
    pick :
        (b : Bool)
        → closing (if b then record (advanced s limit) { finished = true } else advanced s limit)
          ≡ (if b then [] else closing s)
    pick true = ground arith
    pick false = refl

unsent-IsSound :
    (reported : ℕ) (s : Session) (finished : Bool)
    → IsSound reported s
    → IsSound reported (record s { ctrl = []; finished = finished })
unsent-IsSound reported s finished v = record {
  floor = v.floor;
  buffer = v.buffer;
  seq_fits = v.seq_fits;
  acked_le = v.acked_le;
  sent_le = v.sent_le;
  ever_le = v.ever_le;
  covered_le = v.covered_le;
  no_silent_loss = v.no_silent_loss;
  no_false_loss = v.no_false_loss;
}

pulled-buf : (s s' : Session) (limit : ℕ) (p : Pulled) → Pulls s limit s' p → s'.buf ≡ s.buf
unfolding advanced
pulled-buf s s' limit p q = behind_pull (λ (t : Session). t.buf ≡ s.buf) s s' limit p q refl refl

-- A pull by another, or of a socket that is dialing, moves none of the marks.
pub pull-idle :
    (s : Session) (l limit : ℕ)
    → (held_by s l && not (is_dialing s.state)) ≡ false
    → (ctrl : List Frame) × (finished : Bool) × ((pull s l limit).0
        ≡ record s { ctrl = ctrl; finished = finished })
unfolding pull pull_lines pull_close
pull-idle s l limit idle = elim (Bool-cases (held_by s l)) [
  | inr stale ↦ rw (stale, pull) (s.ctrl, s.finished, refl)
  | inl holds ↦
      let dials : is_dialing s.state ≡ true = ground arith in
      rw (holds, dials)
        (if_cases
          (λ (r : Session × Pulled).
            (ctrl : List Frame) × (finished : Bool) × (r.0
              ≡ record s { ctrl = ctrl; finished = finished }))
          (is_closed s.state && (not s.finished && count_after s.buf s.sent == 0))
          (λ _. ([], true, refl)) (λ _. ([], s.finished, refl)))
]

-- A pull by anyone, in any state, keeps the session sound and its backlog as it is.
pub pull-IsSound :
    (reported : ℕ) (s : Session) (l limit : ℕ)
    → IsSound reported s
    → IsSound reported (pull s l limit).0 × ((pull s l limit).0.buf ≡ s.buf)
unfolding pull pull_lines pull_close
pull-IsSound reported s l limit v =
    let Q = λ (t : Session). IsSound reported t × (t.buf ≡ s.buf) in
    let unsent = λ (finished : Bool). unsent-IsSound reported s finished v in
    elim (Bool-cases (held_by s l)) [
      | inr stale ↦ rw (stale, pull) (v, refl)
      | inl holds ↦ elim (Bool-cases (is_dialing s.state)) [
        | inr live ↦
            let q = pull-Pulls reported s l limit v holds live in
            (
              pulled-IsSound reported s (pull s l limit).0 limit (pull s l limit).1 v q,
              pulled-buf s (pull s l limit).0 limit (pull s l limit).1 q,
            )
        | inl dials ↦
            rw (holds, dials)
              (if_cases (λ (r : Session × Pulled). Q r.0)
                (is_closed s.state && (not s.finished && count_after s.buf s.sent == 0))
                (λ _. (unsent true, refl)) (λ _. (unsent s.finished, refl)))
      ]
    ]

nil_of_length {ℓ} : {A : Type ℓ} (xs : List A) → length xs ≡ 0 → xs ≡ []
nil_of_length [] h = refl
nil_of_length (x ∷ xs) h = absurd (omega arith)

-- What one pull sends, and what is then still due, is what was due.
due-split :
    (s s' : Session) (limit : ℕ) (p : Pulled)
    → Pulls s limit s' p
    → p.out ++ (map (line_frame s.handle) (owed s') ++ closing s')
      ≡ s.ctrl ++ (map (line_frame s.handle) (owed s) ++ closing s)
due-split s s' limit p q =
    let f = line_frame s.handle in
    let parts : map f (owed s) ≡ map f (take limit (owed s)) ++ map f (drop limit (owed s)) =
      ap (map f) (sym (take-append-drop limit (owed s)))
      ∙ map-append f (take limit (owed s)) (drop limit (owed s)) in
    rw (q.frames, q.rest, pulled-closing s s' limit p q)
      (elim (Bool-cases p.done) [
        | inl ends ↦
            let nothing : drop limit (owed s) ≡ [] =
              nil_of_length (drop limit (owed s)) (ground (arith, q.closes)) in
            let due : closing s ≡ closed_frame s ∷ [] = ground (arith, q.closes) in
            rw (ends, parts, nothing, due) (simp (append_assoc, append-nil))
        | inr goes_on ↦ rw (goes_on, parts) (simp (append_assoc, append-nil))
      ])

-- Pulling as often as there are lines owed, and once more, sends the control frames, every line
-- owed once and in order, and then the closed frame if the socket is gone and it is still due.
pub drain_lem :
    (rounds reported l limit : ℕ) (s : Session)
    → IsSound reported s
    → held_by s l ≡ true
    → is_dialing s.state ≡ false
    → 0 < limit
    → length (owed s) ≤ rounds
    → (drain (suc rounds) l limit s).1 ≡ s.ctrl ++ (map (line_frame s.handle) (owed s) ++ closing s)
drain_lem zero reported l limit s v holds live some_limit enough =
    let q = pull-Pulls reported s l limit v holds live in
    let s' = (pull s l limit).0 in
    let p = (pull s l limit).1 in
    let none_owed = nil_of_length (owed s) (omega arith) in
    let none_left : owed s' ≡ [] = q.rest ∙ ap (drop limit) none_owed ∙ drop-nil limit in
    let not_due : closing s' ≡ [] =
      pulled-closing s s' limit p q
      ∙ ground (arith, q.closes, none_owed, drop-nil {A = BufferedLine} limit) in
    let nothing : [] ≡ map (line_frame s.handle) (owed s') ++ closing s' =
      λ i. map (line_frame s.handle) (sym none_left i) ++ sym not_due i in
    ap (◌++◌ p.out) nothing ∙ due-split s s' limit p q
drain_lem (suc rounds) reported l limit s v holds live some_limit enough =
    let q = pull-Pulls reported s l limit v holds live in
    let s' = (pull s l limit).0 in
    let p = (pull s l limit).1 in
    let c = pulled-SameClaim s s' limit p q in
    let fewer = ap length q.rest ∙ length-drop limit (owed s) in
    let ih =
      drain_lem rounds reported l limit s' (pulled-IsSound reported s s' limit p v q)
        (ap (λ k. is_link k l) c.same_link ∙ holds) (ap is_dialing c.same_state ∙ live) some_limit
        (omega arith) in
    let own : s'.ctrl ++ (map (line_frame s'.handle) (owed s') ++ closing s')
        ≡ map (line_frame s.handle) (owed s') ++ closing s' =
      λ i. c.no_ctrl i ++ (map (line_frame (c.same_handle i)) (owed s') ++ closing s') in
    ap (◌++◌ p.out) (ih ∙ own) ∙ due-split s s' limit p q
