-- ===== src/Engine/Server/Examples.antt =====
-- A registry that one application connects to, and the theorems at it.
use stugan.Base.{
  ◌∷◌, true, false, Option, none, some, [], Bytes, codes, ◌≡◌, refl, sym, str_eq, arith,
}
use stugan.EngineProto.Op
use stugan.EngineProto.{Frame, blank}
use stugan.Engine.Session.State.{new_session}
use stugan.Engine.Server.State.{Server, Link, session_key, task, add_session}
use stugan.Engine.Server.Handlers.{
  handle_frame, re_attach, handle_connect, handle_write, handle_detach, handle_close,
}
use stugan.Engine.Server.Indexed.{IsIndexed}
use stugan.Engine.Server.Indexed.Frames.{handle_frame-IsIndexed}
use stugan.Engine.Server.Reap.{reap}
use stugan.Engine.Server.Reap.Spared.{reap-spares}
use stugan.Engine.Server.Indexed.Superseded.{superseded}

abbrev app : Link
app = record { instance_id = codes "app"; gen = 1; ctrl = []; sessions = [] }

abbrev fine : Bytes → Option Bytes
fine _ = none

abbrev connect_as : Bytes → Frame
connect_as handle = record blank {
  op = Op.connect;
  id = codes "alice/net";
  handle = handle;
  addr = codes "irc:6667";
}

abbrev empty : Server
empty = record {
  closed = false;
  heap = λ _. new_session 0 [] blank [] 0;
  next = 0;
  sessions = λ _. none;
  by_handle = λ _. none;
  links = λ _. app;
  used = 0;
  registered = [];
  tasks = [];
}

empty-IsIndexed : IsIndexed empty
empty-IsIndexed = record {
  handle_of = λ h p e. absurd (ground (arith, e));
  key_of = λ k p e. absurd (ground (arith, e));
  below = λ k p e. absurd (ground (arith, e));
  recent = λ k p e. absurd (ground (arith, e));
}

abbrev connected : Server
connected = handle_frame fine true empty 7 (connect_as (codes "h1")) 1000

handle_frame-IsIndexed_example : IsIndexed connected
handle_frame-IsIndexed_example =
    handle_frame-IsIndexed fine true empty 7 (connect_as (codes "h1")) 1000 empty-IsIndexed

connected-IsIndexed : IsIndexed connected
connected-IsIndexed =
    handle_frame-IsIndexed fine true empty 7 (connect_as (codes "h1")) 1000 empty-IsIndexed

connected_names :
    (connected.sessions (session_key (codes "app") (codes "alice/net")) ≡ some 0)
    × (connected.by_handle (codes "h2") ≡ none)
    × ((connected.heap 0).handle ≡ codes "h1")
unfolding handle_frame str_eq handle_connect task add_session new_session
connected_names = (refl, refl, refl)

superseded_example :
    (handle_write true
        (re_attach connected 8 (connect_as (codes "h2")) 0 2000)
        7
        (connect_as (codes "h1"))
      ≡ re_attach connected 8 (connect_as (codes "h2")) 0 2000)
    × (handle_detach
          (re_attach connected 8 (connect_as (codes "h2")) 0 2000)
          7
          (connect_as (codes "h1"))
          3000
        ≡ re_attach connected 8 (connect_as (codes "h2")) 0 2000)
    × (handle_close
          (re_attach connected 8 (connect_as (codes "h2")) 0 2000)
          7
          (connect_as (codes "h1"))
          3000
        ≡ re_attach connected 8 (connect_as (codes "h2")) 0 2000)
superseded_example =
    superseded connected 8 (connect_as (codes "h2")) 0 2000
      (session_key (codes "app") (codes "alice/net")) connected-IsIndexed connected_names.0
      connected_names.1 true 7 (connect_as (codes "h1")) 3000 (sym connected_names.2)

connected-held : (connected.heap 0).link ≡ some 7
unfolding handle_frame str_eq handle_connect task add_session new_session
connected-held = refl

reap-spares_example :
    IsIndexed
      (reap (λ _. []) 60000 connected 900000 (session_key (codes "app") (codes "alice/net") ∷ []))
    × ((reap
            (λ _. [])
            60000
            connected
            900000
            (session_key (codes "app") (codes "alice/net") ∷ [])).heap
          0
        ≡ connected.heap 0)
reap-spares_example =
    reap-spares (λ _. []) 60000 connected 900000
      (session_key (codes "app") (codes "alice/net") ∷ []) connected-IsIndexed 0 7 connected-held
