-- ===== src/EngineLink/Session/Write.antt =====
-- What the client writes: `Write` and `isPong`.
pub mod Bytewise
pub mod Restored
pub mod Chunks
use stugan.Base.{
  ℕ, Bool, true, false, not, ◌&&◌, Option, none, some, List, [], ◌∷◌, ◌++◌, Bytes, codes, ◌==◌, suc,
  drop, str_eq, if◌then◌else◌,
}
use stugan.Go.Strings.{
  is_empty, before, behind, split, equal_fold, starts_with_byte, trim_prefix_byte, trim_right,
  last_index_byte,
}
use stugan.EngineProto.{Frame, blank, set_line}
use stugan.EngineProto.Op
use stugan.EngineLink.Session.{Session, Failure}

-- the text behind the last ` :`
unfoldable pub behind_last_colon : Bytes → Option Bytes
behind_last_colon [] = none
behind_last_colon (x ∷ s) = elim (behind_last_colon s) [
  | some r ↦ some r
  | none ↦ if x == b' ' && starts_with_byte s b':' then some (drop 1 s) else none
]

-- the last word, without a colon in front of the first
unfoldable pub last_word : Bytes → Bytes
last_word rest =
    let r = trim_prefix_byte rest b':' in
    elim (last_index_byte r b' ') [ some j ↦ drop (suc j) r | none ↦ r ]

-- `isPong`
unfoldable pub is_pong : Bytes → Bytes → Bool
unfolding behind_last_colon last_word
is_pong line token =
    let rest = behind line b' ' in
    equal_fold (before line b' ') (codes "PONG")
    && str_eq (elim (behind_last_colon rest) [ some r ↦ r | none ↦ last_word rest ]) token

-- What the loop of `Write` changes: two fields of the session and its two local variables.
pub record Gate : Type 0 where
  pub restoring : Bool
  pub on_restored : Option ℕ
  pub out : List Bytes
  pub restored : Option ℕ

-- a complete line; `l` is it as it was cut off
unfoldable pub pass : Bytes → Gate → Bytes → Gate
pass marker g l =
    let line = trim_right l 13 in
    if is_empty line
    then g
    else if g.restoring
    then (if is_pong line marker
        then record g { restoring = false; restored = g.on_restored; on_restored = none }
        else g)
    else record g { out = g.out ++ line ∷ [] }

-- The loop of `Write` on the text cut at the newlines; what is behind the last is kept.
unfoldable pub cut : Bytes → Gate → List Bytes → Gate × Bytes
unfolding pass
cut marker g [] = (g, [])
cut marker g (p ∷ []) = (g, p)
cut marker g (p ∷ (q ∷ ps)) = cut marker (pass marker g p) (q ∷ ps)

-- The lines go out as frames until one does not; whether all did.
unfoldable pub send_lines : (Frame → Bool) → Session → List Bytes → Session × Bool
send_lines goes s [] = (s, true)
send_lines goes s (l ∷ ls) =
    let f = set_line (record blank { op = Op.write; handle = s.handle }) l in
    elim (goes f) [
      | true ↦ send_lines goes (record s { sent = s.sent ++ f ∷ [] }) ls
      | false ↦ (s, false)
    ]

pub data Written : Type 0 where
  wrote : Written
  write_closed : Written
  write_failed : Failure → Written

unfoldable pub run_restored : Session → Option ℕ → Session
run_restored s none = s
run_restored s (some fn) = record s { ran = s.ran ++ fn ∷ [] }

abbrev pub gate_of : Session → Gate
gate_of s = record {
  restoring = s.restoring;
  on_restored = s.on_restored;
  out = [];
  restored = none;
}

-- the session with what the loop made of it
abbrev pub settled : Session → Gate → Bytes → Session
settled s g rest = record s {
  restoring = g.restoring;
  on_restored = g.on_restored;
  wpartial = rest;
}

abbrev pub finished : Option ℕ → Session × Bool → Session × Written
finished restored (s, true) = (run_restored s restored, wrote)
finished restored (s, false) = (s, write_failed Failure.link_lost)

-- A write to a session that is neither closed nor failed.
unfoldable pub relay : (Frame → Bool) → Session → Bytes → Session × Written
relay goes s p =
    let (g, rest) = cut s.marker (gate_of s) (split (s.wpartial ++ p) 10) in
    finished g.restored (send_lines goes (settled s g rest) g.out)

-- `Write`
unfoldable pub write : (Frame → Bool) → Session → Bytes → Session × Written
unfolding relay
write goes s p =
    if s.closed
    then (s, write_closed)
    else elim s.rerr [ some e ↦ (s, write_failed e) | none ↦ relay goes s p ]
