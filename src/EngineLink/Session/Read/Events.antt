-- ===== src/EngineLink/Session/Read/Events.antt =====
-- What may happen to a session that the client reads from, and what of it brings the client something.
use stugan.Base.{
  ℕ, Bool, true, Option, none, some, refl, List, [], ◌∷◌, Bytes, if◌then◌else◌, if_cases, ltb, ◌≡◌,
}
use stugan.EngineProto.{Frame, blank}
use stugan.EngineProto.Op
use stugan.EngineLink.Session.{
  Session, Failure, send, remote_closed, detach, terminate, is_gone, ack,
}
use stugan.EngineLink.Session.Read.{Got, bytes}
use stugan.EngineLink.Session.Read.Items.{Item, line, replay, Kept, unchanged}

-- what may happen to a session that the client reads from
pub data Event : Type 0 where
  open_frame : Option Frame → Event
  line_frame : ℕ → ℕ → Bytes → Event
  closing : Failure → Event
  detaching : Event
  terminating : Event
  acking : ℕ → Event
  reading : ℕ → ℕ → Event

-- What an event brings the client: a line while the session is up and not closed, and the registration that
-- the first answer to its opening carries.
abbrev pub given : Event → Session → List Item
given (open_frame none) s = []
given (open_frame (some f)) s = if s.ready then [] else replay f.replay s.marker ∷ []
given (line_frame seq at l) s = elim s.rerr [
  | some e ↦ []
  | none ↦ if s.closed then [] else line seq at l ∷ []
]
given (closing e) s = []
given detaching s = []
given terminating s = []
given (acking seq) s = []
given (reading n now) s = []

unless_gone :
    (o : Option Failure) (closed : Bool) (is : List Item)
    → (elim o [ some e ↦ [] | none ↦ if closed then [] else is ])
      ≡ (if elim o [ some e ↦ true | none ↦ closed ] then [] else is)
unless_gone none closed is = refl
unless_gone (some e) closed is = refl

abbrev pub bytes_of : Got → Bytes
bytes_of got = elim got [ bytes b ↦ b | _ ↦ [] ]

pub remote_closed-Kept : (s : Session) (e : Failure) → Kept s (remote_closed s e)
unfolding remote_closed
remote_closed-Kept s e = record { same_rbuf = refl; same_delivered = refl; same_probed = refl }

pub ack-Kept : (s : Session) (seq : ℕ) → Kept s (ack s seq).0
unfolding ack
ack-Kept s seq =
    if_cases {A = Session × Bool} (λ r. Kept s r.0) (ltb s.ack_pending seq)
      (λ _. record { same_rbuf = refl; same_delivered = refl; same_probed = refl })
      (λ _. unchanged s)

pub given_line :
    (seq at : ℕ) (l : Bytes) (s : Session)
    → given (line_frame seq at l) s ≡ (if is_gone s then [] else line seq at l ∷ [])
unfolding is_gone
given_line seq at l s = unless_gone s.rerr s.closed (line seq at l ∷ [])

module _ (goes : Frame → Bool) where
  send-Kept : (s : Session) (f : Frame) → Kept s (send goes s f)
  unfolding send
  send-Kept s f =
      if_cases (Kept s) (goes f)
        (λ _. record { same_rbuf = refl; same_delivered = refl; same_probed = refl })
        (λ _. unchanged s)

  -- detaching, by whether the session has failed
  told_or_not :
      (s : Session) (o : Option Failure) (f : Frame)
      → Kept s (elim o [ some e ↦ s | none ↦ send goes s f ])
  told_or_not s none f = send-Kept s f
  told_or_not s (some e) f = unchanged s

  pub detach-Kept : (s : Session) → Kept s (detach goes s)
  unfolding detach
  detach-Kept s =
      if_cases (Kept s) s.closed (λ _. unchanged s)
        (λ _.
          let k =
            told_or_not (record s { closed = true; forgotten = true }) s.rerr
              (record blank { op = Op.detach; handle = s.handle }) in
          record {
            same_rbuf = k.same_rbuf;
            same_delivered = k.same_delivered;
            same_probed = k.same_probed;
          })

  pub terminate-Kept : (s : Session) → Kept s (terminate goes s)
  unfolding terminate
  terminate-Kept s =
      let k =
        send-Kept (record s { closed = true; forgotten = true })
          (record blank { op = Op.close; id = s.id; handle = s.handle }) in
      record {
        same_rbuf = k.same_rbuf;
        same_delivered = k.same_delivered;
        same_probed = k.same_probed;
      }
