-- ===== src/EngineLink/Session/Write/Restored.antt =====
-- What the engine is sent of what the client writes, while the session is restored and after.
use stugan.Base.{
  subst, ℕ, Bool, true, false, not, ◌&&◌, ◌||◌, Option, none, some, ◌≡◌, refl, ap, sym, ◌∙◌, List,
  [], ◌∷◌, ◌++◌, map, Bytes, append_assoc, append-nil, Bool-cases, inl, inr, if◌then◌else◌,
}
use stugan.Go.Strings.{is_empty, split, trim_right}
use stugan.Go.Strings.Splitting.{split-cons}
use stugan.EngineProto.{Frame, blank, set_line}
use stugan.EngineProto.Op
use stugan.EngineLink.Session.{Session}
use stugan.EngineLink.Session.Write.{
  Gate, is_pong, pass, cut, send_lines, relay, wrote, Written, run_restored, settled, finished,
  gate_of,
}
use stugan.EngineLink.Session.Write.Bytewise.{complete, last_part}

-- a line without its carriage returns, unless nothing is left
abbrev pub stripped : Bytes → List Bytes
stripped l = if is_empty (trim_right l 13) then [] else trim_right l 13 ∷ []

abbrev pub all_stripped : List Bytes → List Bytes
all_stripped [] = []
all_stripped (l ∷ ls) = stripped l ++ all_stripped ls

-- The lines of a text, the blank ones and an unfinished last one left out.
abbrev pub lines_of : Bytes → List Bytes
lines_of s = all_stripped (complete (split s 10))

-- whether one of the lines answers the marker
abbrev pub answers : Bytes → List Bytes → Bool
answers marker [] = false
answers marker (l ∷ ls) = is_pong l marker || answers marker ls

-- the lines behind the first that answers the marker
abbrev pub behind_answer : Bytes → List Bytes → List Bytes
behind_answer marker [] = []
behind_answer marker (l ∷ ls) =
    let rest = behind_answer marker ls in if is_pong l marker then ls else rest

abbrev pub to_send : Bytes → Bool → List Bytes → List Bytes
to_send marker restoring ls = if restoring then behind_answer marker ls else ls

-- What the lines make of the gate.
abbrev after_lines : Bytes → Gate → List Bytes → Gate
after_lines marker g ls = record {
  restoring = g.restoring && not (answers marker ls);
  on_restored = if g.restoring && answers marker ls then none else g.on_restored;
  out = g.out ++ to_send marker g.restoring ls;
  restored = if g.restoring && answers marker ls then g.on_restored else g.restored;
}

abbrev gate : Bool → Option ℕ → List Bytes → Option ℕ → Gate
gate r o out d = record { restoring = r; on_restored = o; out = out; restored = d }

module _ (m : Bytes) where
  pass-after_lines :
      (r : Bool) (o : Option ℕ) (out : List Bytes) (d : Option ℕ) (l : Bytes) (ls : List Bytes)
      → after_lines m (pass m (gate r o out d) l) ls
        ≡ after_lines m (gate r o out d) (stripped l ++ ls)
  unfolding pass
  pass-after_lines r o out d l ls = elim (Bool-cases (is_empty (trim_right l 13))) [
    | inl e ↦ rw (e, pass) refl
    | inr e ↦ elim (Bool-cases r) [
      | inl er ↦ elim (Bool-cases (is_pong (trim_right l 13) m)) [
        | inl ep ↦ rw (e, er, ep) refl
        | inr ep ↦ rw (e, er, ep) refl
      ]
      | inr er ↦
          rw (e, er) (ap (λ ls. gate false o ls d) (append_assoc out (trim_right l 13 ∷ []) ls))
    ]
  ]

  after_lines-nil :
      (r : Bool) (o : Option ℕ) (out : List Bytes) (d : Option ℕ)
      → after_lines m (gate r o out d) [] ≡ gate r o out d
  after_lines-nil true o out d = ap (λ ls. gate true o ls d) (append-nil out)
  after_lines-nil false o out d = ap (λ ls. gate false o ls d) (append-nil out)

  cut-after_lines :
      (g : Gate) (ps : List Bytes) (p : Bytes)
      → cut m g (p ∷ ps) ≡ (after_lines m g (all_stripped (complete (p ∷ ps))), last_part (p ∷ ps))
  unfolding cut
  cut-after_lines g [] p =
      ap (λ g. (g, p)) (sym (after_lines-nil g.restoring g.on_restored g.out g.restored))
  cut-after_lines g (q ∷ ps) p =
      cut-after_lines (pass m g p) ps q
      ∙ ap (λ g. (g, last_part (q ∷ ps)))
          (pass-after_lines g.restoring g.on_restored g.out g.restored p
            (all_stripped (complete (q ∷ ps))))

abbrev pub frame_of : Bytes → Bytes → Frame
frame_of handle l = set_line (record blank { op = Op.write; handle = handle }) l

abbrev pub given : Option ℕ → List ℕ
given none = []
given (some fn) = fn ∷ []

-- The session once these lines went through it, with `rest` not ended yet.
abbrev pub settle : Session → List Bytes → Bytes → Session
settle s ls rest = record s {
  restoring = s.restoring && not (answers s.marker ls);
  on_restored = if s.restoring && answers s.marker ls then none else s.on_restored;
  wpartial = rest;
  sent = s.sent ++ map (frame_of s.handle) (to_send s.marker s.restoring ls);
  ran = s.ran ++ given (if s.restoring && answers s.marker ls then s.on_restored else none);
}

-- The session after a text: only the text's lines count, not how it was cut into writes.
abbrev pub after_text : Session → Bytes → Session
after_text s text = settle s (lines_of text) (last_part (split text 10))

module _ (goes : Frame → Bool) (goes_all : (f : Frame) → goes f ≡ true) where
  send_lines-all :
      (s : Session) (ls : List Bytes)
      → send_lines goes s ls ≡ (record s { sent = s.sent ++ map (frame_of s.handle) ls }, true)
  unfolding send_lines
  send_lines-all s [] = ap (λ fs. (record s { sent = fs }, true)) (sym (append-nil s.sent))
  send_lines-all s (l ∷ ls) =
      rw (send_lines, goes_all (frame_of s.handle l))
        (send_lines-all (record s { sent = s.sent ++ frame_of s.handle l ∷ [] }) ls
          ∙ ap (λ fs. (record s { sent = fs }, true))
              (append_assoc s.sent (frame_of s.handle l ∷ []) (map (frame_of s.handle) ls)))

  finished-given :
      (s : Session) (o : Option ℕ)
      → finished o (s, true) ≡ (record s { ran = s.ran ++ given o }, wrote)
  unfolding run_restored
  finished-given s none = ap (λ fs. (record s { ran = fs }, wrote)) (sym (append-nil s.ran))
  finished-given s (some fn) = refl

  through : Session → Gate × Bytes → Session × Written
  through s gr = finished gr.0.restored (send_lines goes (settled s gr.0 gr.1) gr.0.out)

  through-given :
      (s : Session) (g : Gate) (rest : Bytes)
      → through s (g, rest) ≡ (
        record s {
          restoring = g.restoring;
          on_restored = g.on_restored;
          wpartial = rest;
          sent = s.sent ++ map (frame_of s.handle) g.out;
          ran = s.ran ++ given g.restored;
        },
        wrote,
      )
  unfolding through
  through-given s g rest =
      ap (finished g.restored) (send_lines-all (settled s g rest) g.out)
      ∙ finished-given
          (record (settled s g rest) { sent = s.sent ++ map (frame_of s.handle) g.out }) g.restored

  pub relay-after_text :
      (s : Session) (p : Bytes) → relay goes s p ≡ (after_text s (s.wpartial ++ p), wrote)
  unfolding relay through
  relay-after_text s p =
      let text = s.wpartial ++ p in
      let (q, qs, e) = split-cons 10 text in
      ap (through s) (
        subst
          (λ ps.
            cut s.marker (gate_of s) ps
            ≡ (after_lines s.marker (gate_of s) (all_stripped (complete ps)), last_part ps))
          (sym e) (cut-after_lines s.marker (gate_of s) qs q))
      ∙ through-given s (after_lines s.marker (gate_of s) (lines_of text))
          (last_part (split text 10))
