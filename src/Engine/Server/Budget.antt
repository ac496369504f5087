-- ===== src/Engine/Server/Budget.antt =====
-- internal/engine/buffer.go, `budget.reclaim`: the largest backlogs shed until the total fits.
use stugan.Base.{
  ℕ, zero, suc, Bool, true, false, Option, none, some, List, [], ◌∷◌, lt_i64, if◌then◌else◌,
}
use stugan.Engine.Session.Stream.{shed_oldest}
use stugan.Engine.Session.State.{Session}
use stugan.Engine.Server.State.{Server, set_session}

-- The first of the sessions with the most bytes, from a candidate; one with no bytes is never chosen.
largest : (ℕ → Session) → List ℕ → Option ℕ → ℕ → Option ℕ
largest heap [] best size = best
largest heap (p ∷ ps) best size =
    let n = (heap p).buf.bytes in
    let more = lt_i64 size n in
    largest heap ps (if more then some p else best) (if more then n else size)

-- `shedOldest` of a registered session
shed_at : Server → ℕ → Server × Bool
shed_at s p =
    let (h, did) = shed_oldest (record { used = s.used; sess = s.heap p }) in
    (record (set_session s p h.sess) { used = h.used }, did)

-- `reclaim`, on fuel
reclaim_loop : ℕ → ℕ → Server → Server
reclaim_loop zero max s = s
reclaim_loop (suc fuel) max s = elim (lt_i64 max s.used) [
  | false ↦ s
  | true ↦ elim (largest s.heap s.registered none 0) [
    | none ↦ s
    | some p ↦ elim (shed_at s p).1 [
      | false ↦ (shed_at s p).0
      | true ↦ reclaim_loop fuel max (shed_at s p).0
    ]
  ]
]
