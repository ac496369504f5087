-- ===== src/Engine/Server/Indexed/Superseded.antt =====
-- A claim that a newer one has replaced.
use stugan.Base.{
  ℕ, Bool, false, none, some, Bytes, str_eq, str_eq_iff, ◌≡◌, refl, sym, ap, ◌∙◌, arith, Bool-cases,
  Option-cases, codes, inl, inr, if_cases,
}
use stugan.EngineProto.{Frame, text}
use stugan.Engine.Server.State.{Server, session_key, add_session, task}
use stugan.Engine.Server.Handlers.{
  re_attach, evict, handle_write, unsendable, handle_detach, handle_close, may_close,
}
use stugan.Engine.Server.Indexed.{IsIndexed, SameIndex-IsIndexed}
use stugan.Engine.Server.Indexed.Entering.{re_attach-IsIndexed, re_attach-by_claim, evict-SameIndex}

unheld-handle_close :
    (s : Server) (l : ℕ) (g : Frame) (now : ℕ)
    → IsIndexed s
    → s.by_handle g.handle ≡ none
    → handle_close s l g now ≡ s
unfolding handle_close may_close
unheld-handle_close s l g now v off =
    let key = session_key (s.links l).instance_id g.id in
    elim (Option-cases (s.sessions key)) [
      | inl e ↦ rw (e, handle_close) refl
      | inr (p, e) ↦
          let named : str_eq (s.heap p).handle g.handle ≡ false =
            elim (Bool-cases (str_eq (s.heap p).handle g.handle)) [
              | inr other ↦ other
              | inl same ↦
                  let held = (v.key_of key p e).1 in
                  let at = ap s.by_handle ((str_eq_iff (s.heap p).handle g.handle).0 same) in
                  absurd (ground (arith, sym at ∙ held, off))
            ] in
          rw (e, handle_close) (rw named refl)
    ]

unheld-handle_write :
    (pick : Bool) (s : Server) (l : ℕ) (g : Frame)
    → s.by_handle g.handle ≡ none
    → handle_write pick s l g ≡ s
unfolding handle_write
unheld-handle_write pick s l g off =
    if_cases (λ t. t ≡ s) (unsendable (text g)) (λ _. refl) (λ _. rw off refl)

unheld-handle_detach :
    (s : Server) (l : ℕ) (g : Frame) (now : ℕ)
    → s.by_handle g.handle ≡ none
    → handle_detach s l g now ≡ s
unfolding handle_detach
unheld-handle_detach s l g now off = rw (off, handle_detach) refl

re_attach-frees :
    (s : Server) (l : ℕ) (f : Frame) (p now : ℕ) (key : Bytes)
    → s.by_handle f.handle ≡ none
    → s.sessions key ≡ some p
    → IsIndexed s
    → (re_attach s l f p now).by_handle (s.heap p).handle ≡ none
unfolding re_attach task add_session
re_attach-frees s l f p now key no_handle held v =
    let u = evict s p (codes "taken over by a newer connect") in
    let k = evict-SameIndex s p (codes "taken over by a newer connect") in
    let v' = SameIndex-IsIndexed k v in
    let no_handle' : u.by_handle f.handle ≡ none = rw (k.same_handles) no_handle in
    let held' : u.sessions key ≡ some p = rw (k.same_sessions) held in
    let back : s.by_handle (s.heap p).handle ≡ some p = (v.key_of key p held).1 in
    let now_free = re_attach-by_claim u l f p now key no_handle' held' v' (s.heap p).handle in
    let new_claim : str_eq f.handle (s.heap p).handle ≡ false =
      elim (Bool-cases (str_eq f.handle (s.heap p).handle)) [
        | inr other ↦ other
        | inl same ↦
            let at = ap s.by_handle ((str_eq_iff f.handle (s.heap p).handle).0 same) in
            absurd (ground (arith, at ∙ back, no_handle))
      ] in
    now_free ∙ rw (new_claim, k.same_handles, back) (ground arith)

-- Once a session of an indexed registry is claimed under a new handle that was free, a write, a
-- detach or a close under the handle that it had before changes nothing, from any link.
pub superseded :
    (s : Server) (l : ℕ) (f : Frame) (p now : ℕ) (key : Bytes)
    → IsIndexed s
    → s.sessions key ≡ some p
    → s.by_handle f.handle ≡ none
    → (pick : Bool) (l' : ℕ) (g : Frame) (later : ℕ) → g.handle ≡ (s.heap p).handle
    → (handle_write pick (re_attach s l f p now) l' g ≡ re_attach s l f p now)
      × (handle_detach (re_attach s l f p now) l' g later ≡ re_attach s l f p now)
      × (handle_close (re_attach s l f p now) l' g later ≡ re_attach s l f p now)
superseded s l f p now key v held no_handle pick l' g later old =
    let t = re_attach s l f p now in
    let off : t.by_handle g.handle ≡ none =
      ap t.by_handle old ∙ re_attach-frees s l f p now key no_handle held v in
    (
      unheld-handle_write pick t l' g off,
      unheld-handle_detach t l' g later off,
      unheld-handle_close t l' g later (re_attach-IsIndexed s l f p now key no_handle held v) off,
    )
