-- ===== src/Engine/Server/Reap.antt =====
-- internal/engine/server.go: the end of sockets that nobody claims. `spell` is the formatting of a
-- duration; times are in milliseconds.
pub mod Spared
use stugan.Base.{
  ℕ, ◌+◌, ◌-◌, ◌*◌, Bool, true, false, not, ◌&&◌, Option, none, some, List, [], ◌∷◌, ◌++◌, Bytes,
  codes, ltb, if◌then◌else◌,
}
use stugan.Engine.Session.State.{Session, is_closed, shutdown}
use stugan.Engine.Server.State.{Server, wake, task, set_session, forget_locked}
use stugan.Engine.Server.Handlers.{closing}

abbrev unregistered_timeout : ℕ
unregistered_timeout = 2 * 60 * 1000

-- `release`: the link is told, or the session is forgotten.
unfoldable pub released : Server → ℕ → Option ℕ → Server
released s p none = forget_locked s p
released s p (some l) = task s (wake l)

-- `endSession`
unfoldable pub end_of : Server → ℕ → Bytes → Server
unfolding released
end_of s p reason =
    let (ended, told, did, effects) = shutdown (s.heap p) reason in
    if did then released (closing (set_session s p ended) p effects) p told else s

-- since when nobody has claimed the session, if longer than `limit`
too_long : Option ℕ → ℕ → ℕ → Bool
too_long none now limit = false
too_long (some t) now limit = ltb limit (now - t)

-- Why a session is to be ended, if it is.
pub verdict : (ℕ → Bytes) → ℕ → Session → ℕ → Option Bytes
unfolding too_long
verdict spell orphan_timeout sess now = elim sess.link [
  | some l ↦ none
  | none ↦
      if is_closed sess.state
      then none
      else if not sess.registered && ltb unregistered_timeout (now - sess.created)
      then some (codes "never finished registering")
      else if ltb 0 orphan_timeout && too_long sess.detached_at now orphan_timeout
      then some (codes "no stugan attached for " ++ spell orphan_timeout)
      else none
]

-- The first loop of `reap`, over the keys of the map in some order.
pub victims : (ℕ → Bytes) → ℕ → Server → ℕ → List Bytes → List (ℕ × Bytes)
unfolding verdict
victims spell orphan_timeout s now [] = []
victims spell orphan_timeout s now (key ∷ keys) =
    let rest = victims spell orphan_timeout s now keys in
    elim (s.sessions key) [
      | none ↦ rest
      | some p ↦ elim (verdict spell orphan_timeout (s.heap p) now) [
        | none ↦ rest
        | some reason ↦ (p, reason) ∷ rest
      ]
    ]

-- The second loop, behind the lock.
pub end_all : Server → List (ℕ × Bytes) → Server
end_all s [] = s
end_all s ((p, reason) ∷ vs) = end_all (end_of s p reason) vs

-- `reap`, in one step. The code lets go of the lock between the two loops, so a frame may come in between;
-- such a run is not modelled.
pub reap : (ℕ → Bytes) → ℕ → Server → ℕ → List Bytes → Server
unfolding victims end_all
reap spell orphan_timeout s now keys = end_all s (victims spell orphan_timeout s now keys)
