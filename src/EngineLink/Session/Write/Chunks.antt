-- ===== src/EngineLink/Session/Write/Chunks.antt =====
-- A text in several writes: what counts is the text, not how it is cut.
use stugan.Base.{
  ℕ, Bool, true, false, not, ◌&&◌, ◌||◌, Option, none, some, ◌≡◌, refl, ap, sym, ◌∙◌, List, [], ◌∷◌,
  ◌++◌, map, Bytes, append_assoc, append-nil, arith, if◌then◌else◌,
}
use stugan.Go.Strings.{split}
use stugan.EngineProto.{Frame}
use stugan.EngineLink.Session.{Session}
use stugan.EngineLink.Session.Write.{write, relay}
use stugan.EngineLink.Session.Write.Bytewise.{
  IsPartial, complete, last_part, complete-append, last_part-append, last_part-IsPartial,
}
use stugan.EngineLink.Session.Write.Restored.{
  answers, to_send, behind_answer, given, frame_of, all_stripped, stripped, lines_of, settle,
  after_text, relay-after_text,
}

all_stripped-append :
    (ls ks : List Bytes) → all_stripped (ls ++ ks) ≡ all_stripped ls ++ all_stripped ks
all_stripped-append [] ks = refl
all_stripped-append (l ∷ ls) ks =
    ap (◌++◌ (stripped l)) (all_stripped-append ls ks)
    ∙ sym (append_assoc (stripped l) (all_stripped ls) (all_stripped ks))

pub lines_of-append :
    (a b : Bytes) → lines_of (a ++ b) ≡ lines_of a ++ lines_of (last_part (split a 10) ++ b)
lines_of-append a b =
    ap all_stripped (complete-append a b)
    ∙ all_stripped-append (complete (split a 10))
        (complete (split (last_part (split a 10) ++ b) 10))

map-append {ℓ κ} :
    {A : Type ℓ} {B : Type κ} (f : A → B) (xs ys : List A) → map f (xs ++ ys) ≡ map f xs ++ map f ys
map-append f [] ys = refl
map-append f (x ∷ xs) ys = ap (◌∷◌ (f x)) (map-append f xs ys)

module _ (m : Bytes) where
  answers-append : (ls ks : List Bytes) → answers m (ls ++ ks) ≡ (answers m ls || answers m ks)
  answers-append [] ks = refl
  answers-append (l ∷ ls) ks = ground (arith, answers-append ls ks)

  behind_answer-append :
      (ls ks : List Bytes)
      → behind_answer m (ls ++ ks)
        ≡ behind_answer m ls ++ (if answers m ls then ks else behind_answer m ks)
  behind_answer-append [] ks = refl
  behind_answer-append (l ∷ ls) ks = ground (arith, behind_answer-append ls ks)

  to_send-append :
      (r : Bool) (ls ks : List Bytes)
      → to_send m r (ls ++ ks) ≡ to_send m r ls ++ to_send m (r && not (answers m ls)) ks
  to_send-append false ls ks = refl
  to_send-append true ls ks = ground (arith, behind_answer-append ls ks)

-- The callback runs once, with the first answer.
given_once :
    (o : Option ℕ) (r a b : Bool)
    → given (if r && (a || b) then o else none)
      ≡ given (if r && a then o else none)
        ++ given (if (r && not a) && b then (if r && a then none else o) else none)
given_once none r a b = ground arith
given_once (some f) r a b = ground arith

still_restoring : (r a b : Bool) → (r && not (a || b)) ≡ ((r && not a) && not b)
still_restoring r a b = ground arith

left_over :
    (o : Option ℕ) (r a b : Bool)
    → (if r && (a || b) then none else o)
      ≡ (if (r && not a) && b then none else (if r && a then none else o))
left_over o r a b = ground arith

-- the fields that the lines change
abbrev assembled : Session → Bytes → Bool → Option ℕ → List Frame → List ℕ → Session
assembled s rest r o fs ns = record s {
  restoring = r;
  on_restored = o;
  wpartial = rest;
  sent = fs;
  ran = ns;
}

assembled_eq :
    (s : Session) (w : Bytes) {r r' : Bool} {o o' : Option ℕ} {fs fs' : List Frame}
    {ns ns' : List ℕ}
    → r ≡ r'
    → o ≡ o'
    → fs ≡ fs'
    → ns ≡ ns'
    → assembled s w r o fs ns ≡ assembled s w r' o' fs' ns'
assembled_eq s w {r' = r'} {o} {o'} {fs} {fs'} {ns} e f g h =
    ap (λ x. assembled s w x o fs ns) e
    ∙ ap (λ x. assembled s w r' x fs ns) f
    ∙ ap (λ x. assembled s w r' o' x ns) g
    ∙ ap (assembled s w r' o' fs') h

-- Lines behind lines.
settle-settle :
    (s : Session) (ls ks : List Bytes) (v w : Bytes)
    → settle s (ls ++ ks) w ≡ settle (settle s ls v) ks w
settle-settle s ls ks v w =
    let m = s.marker in
    let r = s.restoring in
    let o = s.on_restored in
    let h = frame_of s.handle in
    let a = answers m ls in
    let b = answers m ks in
    let r' = r && not a in
    rw (answers-append m ls ks) (
      assembled_eq s w (still_restoring r a b) (left_over o r a b)
        (ap (λ fs. s.sent ++ map h fs) (to_send-append m r ls ks)
          ∙ ap (◌++◌ s.sent) (map-append h (to_send m r ls) (to_send m r' ks))
          ∙ sym (append_assoc s.sent (map h (to_send m r ls)) (map h (to_send m r' ks))))
        (ap (◌++◌ s.ran) (given_once o r a b)
          ∙ sym (
              append_assoc s.ran (given (if r && a then o else none))
                (given (if r' && b then (if r && a then none else o) else none)))))

to_send-nil : (m : Bytes) (r : Bool) → to_send m r [] ≡ []
to_send-nil m r = ground arith

not_given : (r : Bool) (o : Option ℕ) → (if r && false then o else none) ≡ none
not_given r o = ground arith

settle-nil : (s : Session) → settle s [] s.wpartial ≡ s
settle-nil s =
    let r : (s.restoring && true) ≡ s.restoring = ground arith in
    let o : (if s.restoring && false then none else s.on_restored) ≡ s.on_restored = ground arith in
    let fs : s.sent ++ map (frame_of s.handle) (to_send s.marker s.restoring []) ≡ s.sent =
      ap (λ ls. s.sent ++ map (frame_of s.handle) ls) (to_send-nil s.marker s.restoring)
      ∙ append-nil s.sent in
    let ns : s.ran ++ given (if s.restoring && false then s.on_restored else none) ≡ s.ran =
      ap (λ fn. s.ran ++ given fn) (not_given s.restoring s.on_restored) ∙ append-nil s.ran in
    assembled_eq s s.wpartial r o fs ns

after_text-append :
    (s : Session) (a b : Bytes)
    → after_text s (a ++ b) ≡ after_text (after_text s a) (last_part (split a 10) ++ b)
after_text-append s a b =
    ap (λ ls. settle s ls (last_part (split (a ++ b) 10))) (lines_of-append a b)
    ∙ ap (settle s (lines_of a ++ lines_of (last_part (split a 10) ++ b))) (last_part-append a b)
    ∙ settle-settle s (lines_of a) (lines_of (last_part (split a 10) ++ b)) (last_part (split a 10))
        (last_part (split (last_part (split a 10) ++ b) 10))

abbrev pub concat : List Bytes → Bytes
concat [] = []
concat (p ∷ ps) = p ++ concat ps

write-relay :
    (goes : Frame → Bool) (s : Session) (p : Bytes)
    → s.closed ≡ false
    → s.rerr ≡ none
    → write goes s p ≡ relay goes s p
unfolding write
write-relay goes s p live well = simp (live, well)

-- several writes, one after the other
unfoldable pub writes : (Frame → Bool) → Session → List Bytes → Session
writes goes s [] = s
writes goes s (p ∷ ps) = writes goes (write goes s p).0 ps

-- On a session that is open, over a link that takes every frame, writes do what their text asks for,
-- however it is cut into writes: while the session is restored, nothing goes out up to the first line
-- that answers the marker, that line included, and it runs the callback once; after it, and from
-- the start on a session that is not restored, every complete line that is not blank goes out in its
-- own frame, in order; an unfinished line waits.
pub writes-after_text :
    (goes : Frame → Bool) (s : Session) (ps : List Bytes)
    → ((f : Frame) → goes f ≡ true)
    → s.closed ≡ false
    → s.rerr ≡ none
    → IsPartial s.wpartial
    → writes goes s ps ≡ after_text s (s.wpartial ++ concat ps)
unfolding writes write
writes-after_text goes s [] all live well partial =
    rw (append-nil s.wpartial, partial) (sym (settle-nil s))
writes-after_text goes s (p ∷ ps) all live well partial =
    let text = s.wpartial ++ p in
    let once : (write goes s p).0 ≡ after_text s text =
      ap (λ r. r.0) (write-relay goes s p live well ∙ relay-after_text goes all s p) in
    ap (λ s. writes goes s ps) once
    ∙ writes-after_text goes (after_text s text) ps all live well (last_part-IsPartial text)
    ∙ sym (after_text-append s text (concat ps))
    ∙ ap (after_text s) (append_assoc s.wpartial p (concat ps))
