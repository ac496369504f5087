-- ===== src/Engine/Server/State.antt =====
-- The registry. A session is known by a number, its place in `heap`; a Go map is a function. What
-- a handler starts beside its own work (goroutines, wake-ups, socket closes) is a list of tasks.
use stugan.Base.{
  ℕ, Bool, false, Option, none, some, List, [], ◌∷◌, ◌++◌, Bytes, ◌==◌, if◌then◌else◌, str_eq,
  sub64,
}
use stugan.EngineProto.{Frame}
use stugan.Engine.Buffer.{clear}
use stugan.Engine.Session.State.{Session}

-- A link's fields that a handler reads or changes.
pub record Link : Type 0 where
  pub instance_id : Bytes
  pub gen : ℕ
  pub ctrl : List Frame
  pub sessions : List ℕ

pub data Task : Type 0 where
  wake : ℕ → Task
  dial_session : ℕ → Frame → Task
  close_socket : ℕ → Task
  overflow : ℕ → Bytes → Task

pub record Server : Type 0 where
  pub closed : Bool
  pub heap : ℕ → Session
  pub next : ℕ
  pub sessions : Bytes → Option ℕ
  pub by_handle : Bytes → Option ℕ
  pub links : ℕ → Link
  pub used : ℕ
  pub registered : List ℕ
  pub tasks : List Task

-- a map with one entry changed
abbrev pub put {ℓ} : {A : Type ℓ} → (ℕ → A) → ℕ → A → ℕ → A
put m k v j = if k == j then v else m j

abbrev pub put_str {ℓ} : {A : Type ℓ} → (Bytes → A) → Bytes → A → Bytes → A
put_str m k v j = if str_eq k j then v else m j

abbrev pub is_ptr : Option ℕ → ℕ → Bool
is_ptr none p = false
is_ptr (some q) p = q == p

-- `instance + "\x00" + id`
abbrev pub session_key : Bytes → Bytes → Bytes
session_key instance_id id = instance_id ++ (0 ∷ id)

unfoldable pub task : Server → Task → Server
task s t = record s { tasks = s.tasks ++ t ∷ [] }

unfoldable pub set_session : Server → ℕ → Session → Server
set_session s p sess = record s { heap = put s.heap p sess }

set_link : Server → ℕ → Link → Server
set_link s l k = record s { links = put s.links l k }

-- `send`
unfoldable pub send : Server → ℕ → Frame → Server
unfolding set_link task
send s l f =
    let k = s.links l in task (set_link s l (record k { ctrl = k.ctrl ++ f ∷ [] })) (wake l)

remove_ptr : ℕ → List ℕ → List ℕ
remove_ptr p [] = []
remove_ptr p (q ∷ qs) = let rest = remove_ptr p qs in if q == p then rest else q ∷ rest

-- `addSession`: a set, so once
unfoldable pub add_session : Server → ℕ → ℕ → Server
unfolding set_link remove_ptr
add_session s l p =
    let k = s.links l in set_link s l (record k { sessions = remove_ptr p k.sessions ++ p ∷ [] })

-- `removeSession`
unfoldable pub remove_session : Server → ℕ → ℕ → Server
unfolding set_link remove_ptr
remove_session s l p =
    let k = s.links l in set_link s l (record k { sessions = remove_ptr p k.sessions })

-- `delete(m, k)` if `m[k] == p`
abbrev pub delete_if : (Bytes → Option ℕ) → Bytes → ℕ → Bytes → Option ℕ
delete_if m k p = if is_ptr (m k) p then put_str m k none else m

-- the loop over a session's handles
unfoldable pub unindex : ℕ → List Bytes → (Bytes → Option ℕ) → Bytes → Option ℕ
unindex p [] m = m
unindex p (h ∷ hs) m = unindex p hs (delete_if m h p)

-- `forgetLocked`, with the budget's `unregister` and `refund`
unfoldable pub forget_locked : Server → ℕ → Server
unfolding remove_ptr
forget_locked s p =
    let sess = s.heap p in
    let (buf, freed) = clear sess.buf in
    record s {
      sessions = delete_if s.sessions sess.key p;
      by_handle = unindex p sess.handles s.by_handle;
      heap = put s.heap p (record sess { buf = buf });
      used = sub64 s.used freed;
      registered = remove_ptr p s.registered;
    }
