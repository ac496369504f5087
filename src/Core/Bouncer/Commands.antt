-- ===== src/Core/Bouncer/Commands.antt =====
-- The commands on the networks of a bouncer: which lines go out, and which errors come back.
pub mod Bound
pub mod Adding
pub mod Outcomes
use stugan.Base.{
  ℕ, Bool, true, false, not, ◌&&◌, ◌||◌, Option, none, some, ◌⊎◌, inl, inr, List, [], ◌∷◌, ◌++◌,
  Bytes, codes, str_eq, take, drop, if◌then◌else◌,
}
use stugan.Go.Strings.{is_empty, index_byte}
use stugan.Go.Space.{trim_space}
use stugan.Core.Bouncer.{BouncerNetwork, cap_bouncer_networks, added_attrs, find_bouncer}
use stugan.Core.Network.{
  NetworkParams, Network, Conn, Engine, Error, unknown_network, no_bouncer, host_required,
  unknown_bouncer_network, login_required, network_exists, send_failed, already_open, find_network,
  find_conn, network_config, add_network_live,
}

-- `slices.Contains`
unfoldable pub contains : List Bytes → Bytes → Bool
contains [] x = false
contains (y ∷ ys) x = str_eq y x || contains ys x

-- `bouncerConn`
unfoldable pub bouncer_conn : Engine → Bytes → Error ⊎ Conn
bouncer_conn e network = elim (find_conn network e.conns) [
  | none ↦ inl unknown_network
  | some c ↦ if not (contains c.caps cap_bouncer_networks) then inl no_bouncer else inr c
]

abbrev pub list_line : Bytes
list_line = codes "BOUNCER LISTNETWORKS"

-- `listBouncerNetworks`: the lines that go out
unfoldable pub list_bouncer_networks : Engine → Bytes → List Bytes
list_bouncer_networks e network = elim (bouncer_conn e network) [
  | inl err ↦ []
  | inr c ↦ if c.takes list_line then list_line ∷ [] else []
]

-- A line, and then the request for the list: what went out, and the error.
unfoldable pub send_and_list : Conn → Bytes → List Bytes × Option Error
send_and_list c line =
    if not (c.takes line)
    then ([], some send_failed)
    else if c.takes list_line
    then (line ∷ (list_line ∷ []), none)
    else (line ∷ [], some send_failed)

-- `BouncerAdd`
unfoldable pub bouncer_add :
    (ℕ → Bytes) → Engine → Bytes → BouncerNetwork → Bytes → List Bytes × Option Error
bouncer_add itoa e network b pass = elim (bouncer_conn e network) [
  | inl err ↦ ([], some err)
  | inr c ↦
      if is_empty (trim_space b.host)
      then ([], some host_required)
      else send_and_list c (codes "BOUNCER ADDNETWORK " ++ added_attrs itoa b pass)
]

-- `bouncerNetwork`
unfoldable pub bouncer_network : Engine → Bytes → Bytes → Option BouncerNetwork
bouncer_network e network id = elim (find_network network e.networks) [
  | none ↦ none
  | some n ↦ find_bouncer id n.bouncer
]

-- `BouncerDelete`
unfoldable pub bouncer_delete : Engine → Bytes → Bytes → List Bytes × Option Error
bouncer_delete e network id = elim (bouncer_conn e network) [
  | inl err ↦ ([], some err)
  | inr c ↦ elim (bouncer_network e network id) [
    | none ↦ ([], some unknown_bouncer_network)
    | some b ↦ send_and_list c (codes "BOUNCER DELNETWORK " ++ id)
  ]
]

-- The user of a login, and its client with the `@`.
unfoldable pub split_client : Bytes → Bytes × Bytes
split_client user = elim (index_byte user b'@') [
  | some i ↦ (take i user, drop i user)
  | none ↦ (user, [])
]

unfoldable pub without_network : Bytes → Bytes
without_network user = elim (index_byte user b'/') [ some i ↦ take i user | none ↦ user ]

-- the login at a bouncer's network, from the one at the bouncer
unfoldable pub bound_login : Bytes → Bytes → Bytes
unfolding split_client without_network
bound_login login name =
    let (user, client) = split_client login in without_network user ++ (b'/' ∷ (name ++ client))

-- The settings of the network that is opened.
unfoldable pub bound_params : Bytes → Bytes → NetworkParams → NetworkParams
bound_params network name p = record p {
  id = network ++ (b'-' ∷ name);
  name = network ++ (b'-' ∷ name);
  sasl_user = bound_login p.sasl_user name;
  channels = [];
  channel_keys = [];
  perform = [];
  monitor = [];
  buffer_order = [];
  pos = 0;
}

-- the error of `BouncerOpen` for one of `AddNetworkLive`
unfoldable pub open_error : Bytes → Option Error → Option Error
open_error name none = none
open_error name (some network_exists) = some (already_open name)
open_error name (some err) = some err

-- `BouncerOpen`
unfoldable pub bouncer_open : Engine → Bytes → Bytes → Engine × Option Error
bouncer_open e network id = elim (bouncer_network e network id) [
  | none ↦ (e, some unknown_bouncer_network)
  | some b ↦ elim (network_config e network) [
    | none ↦ (e, some unknown_network)
    | some p ↦
        if is_empty b.name || is_empty p.sasl_user
        then (e, some login_required)
        else let (e', err) = add_network_live e (bound_params network b.name p) in
          (e', open_error (network ++ (b'-' ∷ b.name)) err)
  ]
]
