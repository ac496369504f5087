-- ===== src/EngineLink/Session/Read/Probes.antt =====
-- What the client is given to read, and that a probe never runs ahead of the lines.
use stugan.Base.{
  ℕ, Bool, true, false, not, ◌&&◌, Option, none, some, refl, ap, sym, subst, ◌∙◌, List, [], ◌∷◌,
  ◌++◌, Bytes, append_assoc, append-nil, arith, max, take, drop, length, take-append-drop,
  if◌then◌else◌, if_cases, ltb, ◌≡◌, if_both,
}
use stugan.Go.Strings.{is_empty}
use stugan.EngineProto.{Frame}
use stugan.EngineLink.Tags.{tag_line}
use stugan.EngineLink.Session.{
  Session, Failure, crlf, new_session, max_pending, stopped_reading, opened, deliver, remote_closed,
  detach, terminate, is_gone, ack,
}
use stugan.EngineLink.Session.Read.{
  Got, read_failed, deadline_exceeded, waits, is_past, read, probe,
}
use stugan.EngineLink.Session.Read.Events.{
  Event, open_frame, line_frame, closing, detaching, terminating, acking, reading, given,
  given_line, bytes_of, detach-Kept, terminate-Kept, remote_closed-Kept, ack-Kept,
}
use stugan.EngineLink.Session.Read.Items.{
  Item, line, probed_at, replay, without_probes, without_probes-append, IsTold, Kept, Kept-IsTold,
  grown-IsTold, replay-item_bytes,
}

module _ (decimal server_time : ℕ → Bytes) (goes : Frame → Bool) where
  -- A step, with what the client has read so far.
  unfoldable pub step : Event → Session × Bytes → Session × Bytes
  step (open_frame f) (s, got) = (opened decimal server_time s f, got)
  step (line_frame seq at l) (s, got) = (deliver decimal server_time goes s seq at l, got)
  step (closing e) (s, got) = (remote_closed s e, got)
  step detaching (s, got) = (detach goes s, got)
  step terminating (s, got) = (terminate goes s, got)
  step (acking seq) (s, got) = ((ack s seq).0, got)
  step (reading n now) (s, got) =
      ((read decimal s n now).0, got ++ bytes_of (read decimal s n now).1)

  unfoldable pub run : List Event → Session × Bytes → Session × Bytes
  run [] sg = sg
  run (e ∷ es) sg = run es (step e sg)

  -- what the events of a run bring, in order
  abbrev pub arrived : List Event → Session × Bytes → List Item
  arrived [] sg = []
  arrived (e ∷ es) sg = given e sg.0 ++ arrived es (step e sg)

  -- Some items tell of the session, and these of them came from the engine.
  abbrev Told : List Item → Session × Bytes → Type 0
  Told arr sg =
      (is : List Item) × IsTold decimal server_time sg.0 sg.1 is × (without_probes is ≡ arr)

  Kept-Told :
      {arr : List Item} {s s' : Session} {got : Bytes}
      → Kept s s'
      → Told arr (s, got)
      → Told arr (s', got)
  Kept-Told k (is, t, e) = (is, Kept-IsTold decimal server_time k t, e)

  still : {arr : List Item} {sg : Session × Bytes} → Told arr sg → Told (arr ++ []) sg
  still {arr} {sg} t = subst (λ a. Told a sg) (sym (append-nil arr)) t

  -- an item more that is no probe
  more :
      {arr : List Item} (is : List Item) (i : Item)
      → without_probes is ≡ arr
      → without_probes (is ++ i ∷ []) ≡ arr ++ without_probes (i ∷ [])
  more is i e = without_probes-append is (i ∷ []) ∙ ap (λ a. a ++ without_probes (i ∷ [])) e

  opened-Told :
      (arr : List Item) (s : Session) (got : Bytes) (f : Option Frame)
      → Told arr (s, got)
      → Told (arr ++ given (open_frame f) s) (opened decimal server_time s f, got)
  unfolding opened
  opened-Told arr s got none t = still (
      if_cases (λ s'. Told arr (s', got)) s.ready (λ _. t)
        (λ _. Kept-Told (record { same_rbuf = refl; same_delivered = refl; same_probed = refl }) t))
  opened-Told arr s got (some f) (is, t, e) =
      if_both (λ a s'. Told (arr ++ a) (s', got)) s.ready (λ _. still (is, t, e))
        (λ _. (
          is ++ replay f.replay s.marker ∷ [],
          grown-IsTold decimal server_time (replay f.replay s.marker)
              (ap (λ (b : Bytes). s.rbuf ++ b)
                (replay-item_bytes decimal server_time f.replay s.marker))
              refl refl t.behind t,
          more is (replay f.replay s.marker) e,
        ))

  taken-Told :
      (arr : List Item) (s : Session) (got : Bytes) (seq at : ℕ) (l : Bytes)
      → Told arr (s, got)
      → let s' : Session = record s {
        rbuf = s.rbuf ++ (tag_line decimal server_time l seq at false ++ crlf);
        delivered = max s.delivered seq;
      } in
        Told (arr ++ line seq at l ∷ []) (
          if ltb max_pending (length s'.rbuf)
              then detach goes (remote_closed s' stopped_reading)
              else s',
          got,
        )
  taken-Told arr s got seq at l (is, t, e) =
      let s' = record s {
        rbuf = s.rbuf ++ (tag_line decimal server_time l seq at false ++ crlf);
        delivered = max s.delivered seq;
      } in
      let told : Told (arr ++ line seq at l ∷ []) (s', got) = (
        is ++ line seq at l ∷ [],
        grown-IsTold decimal server_time (line seq at l) refl refl refl (omega (arith, t.behind)) t,
        more is (line seq at l) e,
      ) in
      if_cases (λ s'. Told (arr ++ line seq at l ∷ []) (s', got)) (ltb max_pending (length s'.rbuf))
        (λ _.
          Kept-Told (detach-Kept goes (remote_closed s' stopped_reading))
            (Kept-Told (remote_closed-Kept s' stopped_reading) told))
        (λ _. told)

  deliver-Told :
      (arr : List Item) (s : Session) (got : Bytes) (seq at : ℕ) (l : Bytes)
      → Told arr (s, got)
      → Told
          (arr ++ given (line_frame seq at l) s)
          (deliver decimal server_time goes s seq at l, got)
  unfolding deliver is_gone
  deliver-Told arr s got seq at l t =
      subst (λ (a : List Item). Told (arr ++ a) (deliver decimal server_time goes s seq at l, got))
        (sym (given_line seq at l s))
        (if_both (λ a s'. Told (arr ++ a) (s', got)) (is_gone s) (λ _. still t)
          (λ _. taken-Told arr s got seq at l t))

  probe-Told :
      {arr : List Item} (s : Session) (got : Bytes)
      → Told arr (s, got)
      → Told arr (probe decimal s, got)
  unfolding probe
  probe-Told {arr} s got (is, t, e) =
      if_cases (λ s'. Told arr (s', got))
        (is_empty s.rbuf && (ltb s.probed s.delivered && not s.closed))
        (λ _. (
          is ++ probed_at s.delivered ∷ [],
          grown-IsTold decimal server_time (probed_at s.delivered) refl (ground arith) refl
              (omega arith) t,
          without_probes-append is (probed_at s.delivered ∷ [])
              ∙ append-nil (without_probes is)
              ∙ e,
        ))
        (λ _. (is, t, e))

  -- a part of the buffer is read
  read_some-Told :
      {arr : List Item} (s : Session) (got : Bytes) (n : ℕ)
      → Told arr (s, got)
      → Told arr (record s { rbuf = drop n s.rbuf }, got ++ take n s.rbuf)
  read_some-Told s got n (is, t, e) = (
    is,
    record {
      same_bytes =
          append_assoc got (take n s.rbuf) (drop n s.rbuf)
          ∙ ap (◌++◌ got) (take-append-drop n s.rbuf)
          ∙ t.same_bytes;
      honest = t.honest;
      up_to = t.up_to;
      behind = t.behind;
    },
    e,
  )

  read_none-Told :
      {arr : List Item} (s : Session) (got : Bytes) → Told arr (s, got) → Told arr (s, got ++ [])
  read_none-Told {arr} s got t = subst (λ b. Told arr (s, b)) (sym (append-nil got)) t

  read-Told :
      {arr : List Item} (s : Session) (got : Bytes) (n now : ℕ)
      → Told arr (s, got)
      → Told arr ((read decimal s n now).0, got ++ bytes_of (read decimal s n now).1)
  unfolding read
  read-Told {arr} s got n now t =
      let s' = probe decimal s in
      let t' : Told arr (s', got) = probe-Told s got t in
      if_cases {A = Session × Got} (λ r. Told arr (r.0, got ++ bytes_of r.1))
        (not (is_empty s'.rbuf)) (λ _. read_some-Told s' got n t')
        (λ _.
          if_cases {A = Session × Got} (λ r. Told arr (r.0, got ++ bytes_of r.1)) s'.closed
            (λ _. read_none-Told s' got t')
            (λ _. nothing s' got (is_past s'.deadline now) s'.rerr t'))
    where
      nothing :
          (s : Session) (got : Bytes) (past : Bool) (o : Option Failure)
          → Told arr (s, got)
          → let r : Session × Got = elim o [
            | some e ↦ (s, read_failed e)
            | none ↦ (s, if past then deadline_exceeded else waits)
          ] in
            Told arr (r.0, got ++ bytes_of r.1)
      nothing s got true none t = read_none-Told s got t
      nothing s got false none t = read_none-Told s got t
      nothing s got past (some e) t = read_none-Told s got t

  step-Told :
      (arr : List Item) (e : Event) (s : Session) (got : Bytes)
      → Told arr (s, got)
      → Told (arr ++ given e s) (step e (s, got))
  unfolding step
  step-Told arr (open_frame f) s got t = opened-Told arr s got f t
  step-Told arr (line_frame seq at l) s got t = deliver-Told arr s got seq at l t
  step-Told arr (closing e) s got t = still (Kept-Told (remote_closed-Kept s e) t)
  step-Told arr detaching s got t = still (Kept-Told (detach-Kept goes s) t)
  step-Told arr terminating s got t = still (Kept-Told (terminate-Kept goes s) t)
  step-Told arr (acking seq) s got t = still (Kept-Told (ack-Kept s seq) t)
  step-Told arr (reading n now) s got t = still (read-Told s got n now t)

  pub run-Told :
      (es : List Event) (arr : List Item) (sg : Session × Bytes)
      → Told arr sg
      → Told (arr ++ arrived es sg) (run es sg)
  unfolding run
  run-Told [] arr sg t = still t
  run-Told (e ∷ es) arr sg t =
      subst (λ a. Told a (run es (step e sg)))
        (append_assoc arr (given e sg.0) (arrived es (step e sg)))
        (run-Told es (arr ++ given e sg.0) (step e sg) (step-Told arr e sg.0 sg.1 t))

-- Whatever the engine sends and however the client reads it, what the client has read and what it
-- is still to read are together the bytes of whole items. These are, without the probes, exactly what the
-- engine's frames brought, in the order in which they came: each line that came before the session failed or
-- was closed, with its number, time and text, and the kept registration of a first answer. Each probe carries
-- the highest number of the lines in front of it. The highest number of all is the one kept as delivered, and
-- the last probed one is not beyond it.
pub run-honest :
    (decimal server_time : ℕ → Bytes) (goes : Frame → Bool) (id handle : Bytes) (es : List Event)
    → (is : List Item) × IsTold decimal server_time
        (run decimal server_time goes es (new_session id handle, [])).0
        (run decimal server_time goes es (new_session id handle, [])).1
        is
      × (without_probes is ≡ arrived decimal server_time goes es (new_session id handle, []))
unfolding new_session
run-honest decimal server_time goes id handle es =
    run-Told decimal server_time goes es [] (new_session id handle, [])
      ([], record { same_bytes = refl; honest = refl; up_to = refl; behind = omega arith }, refl)
