-- ===== src/Core/Network.antt =====
-- internal/core/network.go and AddNetworkLive of engine.go: a network's settings, and a network more.
-- A `nil` map or slice and an empty one are the same list; what the store says is only logged.
use stugan.Base.{
  ℕ, Bool, ◌||◌, Option, none, some, List, [], ◌∷◌, ◌++◌, Bytes, str_eq, if◌then◌else◌,
}
use stugan.Go.Strings.{is_empty}
use stugan.Core.Bouncer.{BouncerNetwork}

pub record NetworkParams : Type 0 where
  pub id : Bytes
  pub name : Bytes
  pub addr : Bytes
  pub fallbacks : List Bytes
  pub tls : Bool
  pub insecure : Bool
  pub nick : Bytes
  pub user : Bytes
  pub realname : Bytes
  pub sasl_user : Bytes
  pub sasl_pass : Bytes
  pub channels : List Bytes
  pub monitor : List Bytes
  pub channel_keys : List (Bytes × Bytes)
  pub server_pass : Bytes
  pub perform : List Bytes
  pub sasl_external : Bool
  pub sasl_scram : Bool
  pub cert_pem : Bytes
  pub pos : ℕ
  pub buffer_order : List Bytes
  pub join_hold_timeout : ℕ

-- A connection: what it negotiated, and which lines it takes.
pub record Conn : Type 0 where
  pub caps : List Bytes
  pub takes : Bytes → Bool

-- A network, as far as this code reads it.
pub record Network : Type 0 where
  pub id : Bytes
  pub name : Bytes
  pub nick : Bytes
  pub params : NetworkParams
  pub bouncer : List BouncerNetwork

-- The engine's networks and connections; `dial` is the connector, if there is one.
pub record Engine : Type 0 where
  pub networks : List Network
  pub conns : List (Bytes × Conn)
  pub dial : Option (NetworkParams → Option Conn)

pub data Error : Type 0 where
  unknown_network : Error
  no_bouncer : Error
  host_required : Error
  unknown_bouncer_network : Error
  login_required : Error
  incomplete : Error
  no_connector : Error
  network_exists : Error
  dial_failed : Error
  send_failed : Error
  already_open : Bytes → Error

-- `User.Network`
unfoldable pub find_network : Bytes → List Network → Option Network
find_network id [] = none
find_network id (n ∷ ns) = let rest = find_network id ns in if str_eq n.id id then some n else rest

-- the map of connections, the last put in first
unfoldable pub find_conn : Bytes → List (Bytes × Conn) → Option Conn
find_conn id [] = none
find_conn id ((k, c) ∷ cs) = let rest = find_conn id cs in if str_eq k id then some c else rest

-- `NetworkConfig`
unfoldable pub network_config : Engine → Bytes → Option NetworkParams
network_config e id = elim (find_network id e.networks) [ some n ↦ some n.params | none ↦ none ]

abbrev pub network_of : NetworkParams → Network
network_of p = record { id = p.id; name = p.name; nick = p.nick; params = p; bouncer = [] }

-- `AddNetworkLive`
unfoldable pub add_network_live : Engine → NetworkParams → Engine × Option Error
add_network_live e p =
    if is_empty p.id || is_empty p.addr then (e, some incomplete) else elim e.dial [
      | none ↦ (e, some no_connector)
      | some dial ↦ elim (find_network p.id e.networks) [
        | some n ↦ (e, some network_exists)
        | none ↦ elim (dial p) [
          | none ↦ (e, some dial_failed)
          | some c ↦ (
            record e { networks = e.networks ++ network_of p ∷ []; conns = (p.id, c) ∷ e.conns },
            none,
          )
        ]
      ]
    ]
