-- ===== src/EngineLink/Session/Acks.antt =====
-- The acknowledgements that go out: `Ack` and the rounds of `flushAcks`, in any order.
use stugan.Base.{
  ℕ, Bool, ◌≡◌, sym, ◌∙◌, List, [], ◌∷◌, ◌++◌, map, append_assoc, append-nil, Climbs, ltb, ltb→lt,
  if_cases, Bytes,
}
use stugan.EngineProto.{Frame, blank}
use stugan.EngineProto.Op
use stugan.EngineLink.Session.{Session, ack, ack_frame, flush_ack}

-- a call of `Ack`, or a round over a link that takes some frames
pub data Step : Type 0 where
  acked : ℕ → Step
  flushed : (Frame → Bool) → Step

unfoldable pub run : Session → List Step → Session
run s [] = s
run s (acked seq ∷ es) = run (ack s seq).0 es
run s (flushed goes ∷ es) = run (flush_ack goes s).0 es

-- the frame that acknowledges up to a number
abbrev pub ack_of : Bytes → Bytes → ℕ → Frame
ack_of id handle k = record blank { op = Op.ack; id = id; handle = handle; seq = k }

-- The frames that went out are acknowledgements of climbing numbers.
abbrev pub IsClimbing : Session → Session → Type 0
IsClimbing s s' =
    (ks : List ℕ) × (s'.sent ≡ s.sent ++ map (ack_of s.id s.handle) ks) × Climbs s.ack_sent ks

-- Whatever is acknowledged, in whatever order, and whichever frames the link takes: what goes out is one
-- acknowledgement after the other, each of a higher number than the one before, the first above what was
-- acknowledged already.
pub run-IsClimbing : (s : Session) (es : List Step) → IsClimbing s (run s es)
unfolding run ack flush_ack ack_frame
run-IsClimbing s [] = ([], sym (append-nil s.sent), tt)
run-IsClimbing s (acked seq ∷ es) =
    if_cases {A = Session × Bool} (λ r. IsClimbing s (run r.0 es)) (ltb s.ack_pending seq)
      (λ _. run-IsClimbing (record s { ack_pending = seq }) es) (λ _. run-IsClimbing s es)
run-IsClimbing s (flushed goes ∷ es) =
    let P : Session × Bool → Type 0 = λ r. IsClimbing s (run r.0 es) in
    if_cases P (ltb s.ack_sent s.ack_pending)
      (λ due.
        if_cases P (goes (ack_frame s))
          (λ _.
            let (ks, e, climbs) =
              run-IsClimbing
                (record s { sent = s.sent ++ ack_frame s ∷ []; ack_sent = s.ack_pending }) es in
            (
              s.ack_pending ∷ ks,
              e ∙ append_assoc s.sent (ack_frame s ∷ []) (map (ack_of s.id s.handle) ks),
              (ltb→lt s.ack_sent s.ack_pending due, climbs),
            ))
          (λ _. run-IsClimbing s es))
      (λ _. run-IsClimbing s es)
