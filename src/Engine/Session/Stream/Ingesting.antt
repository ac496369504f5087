-- ===== src/Engine/Session/Stream/Ingesting.antt =====
-- Which lines `ingest` lets into the stream.
use stugan.Base.{
  ℕ, ◌≤◌, Bool, true, not, ◌&&◌, List, [], ◌∷◌, ◌++◌, ◌≡◌, ◌≢◌, refl, Bytes, codes, length, some,
  ◌⊎◌, inl, inr, arith, str_eq, str_eq_iff, ltb, if_cases, ◌||◌, Option-cases,
}
use stugan.Go.Space.{trim_space}
use stugan.Engine.IrcLine.{IrcLine, parse_line, last}
use stugan.Engine.Session.State.{
  Session, Effect, reclaim, notify_if, enqueue_write, is_open, probe_token, write_queue_size,
}
use stugan.Engine.Session.Stream.{Held, Env, ingest, ingest_line, on_session, accept}

-- A line that the application's IRC client can parse and that the engine does not answer itself.
pub record IsRelayable (env : Env) (raw : Bytes) : Type 0 where
  pub parsed : IrcLine
  pub parses : parse_line env.unicode raw ≡ some parsed
  pub not_ping : parsed.cmd ≢ codes "PING"
  pub not_probe : (parsed.cmd ≡ codes "PONG") → last parsed ≢ probe_token
  pub not_blank : 2 ≤ length (trim_space raw)

-- What is left of the session where no line entered: only the queue of writes may have grown.
pub record Bypassed (h g : Held) : Type 0 where
  pub same_used : g.used ≡ h.used
  pub same_session : g.sess ≡ record (h.sess) { write_q = g.sess.write_q }

-- A line came in.
pub record Entered (env : Env) (now : ℕ) (h : Held) (raw : Bytes) (g : Held) (effects : List Effect)
    : Type 0 where
  pub relayable : IsRelayable env raw
  pub was_open : is_open h.sess.state ≡ true
  pub accepted : g ≡ accept env.buffer_bytes now h relayable.parsed raw
  pub asks : effects ≡ reclaim ∷ notify_if h.sess.link

enqueue_write-Bypassed :
    (pick : Bool) (used : ℕ) (s : Session) (line : Bytes)
    → Bypassed (record { used = used; sess = s }) (on_session used (enqueue_write pick s line)).0
unfolding on_session enqueue_write
enqueue_write-Bypassed pick used s line =
    let P = λ (r : Session × List Effect).
      Bypassed (record { used = used; sess = s }) (on_session used r).0 in
    let same : P (s, []) = record { same_used = refl; same_session = refl } in
    if_cases P (ltb (length s.write_q) write_queue_size && (not s.stopped || pick))
      (λ _. record { same_used = refl; same_session = refl })
      (λ _.
        if_cases P s.stopped (λ _. same) (λ _. record { same_used = refl; same_session = refl }))

ingest_line-cases :
    (env : Env) (now : ℕ) (h : Held) (l : IrcLine) (raw : Bytes)
    → parse_line env.unicode raw ≡ some l
    → Bypassed h (ingest_line env now h l raw).0
      ⊎ Entered env now h raw (ingest_line env now h l raw).0 (ingest_line env now h l raw).1
unfolding ingest_line
ingest_line-cases env now h l raw e =
    let P = λ (r : Held × List Effect). Bypassed h r.0 ⊎ Entered env now h raw r.0 r.1 in
    let bypassed : P (h, []) = inl (record { same_used = refl; same_session = refl }) in
    if_cases P (ltb (length (trim_space raw)) 2) (λ _. bypassed)
      λ long.
        if_cases P (str_eq l.cmd (codes "PING"))
          (λ _.
            inl (enqueue_write-Bypassed env.pick_queue h.used h.sess (codes "PONG :" ++ last l)))
          λ no_ping.
            if_cases P (str_eq l.cmd (codes "PONG") && str_eq (last l) probe_token) (λ _. bypassed)
              λ no_probe.
                if_cases P (not (is_open h.sess.state)) (λ _. bypassed)
                  λ is_opened. inr (record {
                    relayable = record {
                      parsed = l;
                      parses = e;
                      not_ping = ground (arith, str_eq_iff l.cmd (codes "PING"));
                      not_probe =
                          ground (
                            arith,
                            str_eq_iff l.cmd (codes "PONG"),
                            str_eq_iff (last l) probe_token,
                          );
                      not_blank = ground arith;
                    };
                    was_open = ground arith;
                    accepted = refl;
                    asks = refl;
                  })

-- A line either enters the stream of an open session, and then it parses, is not blank and is no
-- PING or answer to the engine's own probe; or nothing of the session changes but its write queue.
pub ingest-cases :
    (env : Env) (now : ℕ) (h : Held) (raw : Bytes)
    → Bypassed h (ingest env now h raw).0
      ⊎ Entered env now h raw (ingest env now h raw).0 (ingest env now h raw).1
unfolding ingest
ingest-cases env now h raw = elim (Option-cases (parse_line env.unicode raw)) [
  | inl bad ↦ rw (bad, ingest) (inl (record { same_used = refl; same_session = refl }))
  | inr (l, e) ↦ rw (e, ingest) (ingest_line-cases env now h l raw e)
]
