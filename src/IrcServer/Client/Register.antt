-- ===== src/IrcServer/Client/Register.antt =====
-- Registration: the commands before it, the login, and the choice of the network.
pub mod Commands
use stugan.Base.{
  Bool, true, false, not, ◌&&◌, ◌||◌, Option, none, some, List, [], ◌∷◌, ◌++◌, Bytes, codes, map,
  if◌then◌else◌, str_eq,
}
use stugan.Go.Strings.{is_empty, join, to_upper, to_lower}
use stugan.IrcServer.Parse.{Message}
use stugan.IrcServer.Login.{ParsedCredentials, unmarshal_login, parse_credentials}
use stugan.IrcServer.Client.{
  Hub, Tenant, Network, Client, attach_burst, control_burst, server_name, has_cap, reply, numeric,
  current_nick_or, close_with_error, destroy, clean_nick,
}
use stugan.IrcServer.Client.Caps.{param_0, handle_cap}
use stugan.IrcServer.Client.Sasl.{single_user_id, single_user_authorized, handle_sasl}

abbrev pub cap_bouncer_networks : Bytes
cap_bouncer_networks = codes "soju.im/bouncer-networks"

abbrev pub em_dash : Bytes
em_dash = 0xe2 ∷ (0x80 ∷ (0x94 ∷ []))

-- `failRegistration`
unfoldable pub fail_registration : Client → Bytes → Client
fail_registration c text =
    close_with_error (reply c (codes "464") (current_nick_or c (codes "*") ∷ ((b':' ∷ text) ∷ [])))
      text

-- `bindNetwork`
unfoldable pub bind_network : Client → Bytes → Network → Client
bind_network c user n = record c {
  user_id = user;
  network_id = n.id;
  registered = true;
  reg_timer = false;
  out = c.out ++ attach_burst n.id ∷ [];
}

-- `registerControl`
unfoldable pub register_control : Client → Bytes → Client
register_control c user = record c {
  user_id = user;
  is_control = true;
  registered = true;
  reg_timer = false;
  out = c.out ++ control_burst ∷ [];
}

-- `server.BouncerAllowed`
unfoldable pub bouncer_allowed : Tenant → Bool
bouncer_allowed t = elim t.pref_bouncer [
  | none ↦ true
  | some none ↦ true
  | some (some v) ↦ not (str_eq v (codes "off"))
]

-- The first network that a test takes.
pub find_network : (Network → Bool) → List Network → Option Network
find_network test [] = none
find_network test (n ∷ ns) = let rest = find_network test ns in if test n then some n else rest

abbrev pub is_bound : Bytes → Network → Bool
is_bound id n = str_eq n.id id || str_eq n.name id

abbrev pub is_selected : Hub → Bytes → Network → Bool
is_selected hub sel n =
    str_eq (to_lower hub.unicode_lower n.name) sel || str_eq (to_lower hub.unicode_lower n.id) sel

unfoldable pub names_of : List Network → Bytes
names_of ns = join (map (λ (n : Network). n.name) ns) (codes ", ")

unfoldable pub unknown_net_id : Client → Client
unknown_net_id c =
    close_with_error
      (reply c (codes "FAIL") (
        codes "BOUNCER"
        ∷ (codes "INVALID_NETID" ∷ (c.bound_net_id ∷ (codes ":Unknown network ID" ∷ [])))))
      (codes "Unknown network ID")

-- The network that a login without a selector means: the only one.
unfoldable pub attach_only : Client → Bytes → List Network → Client
unfolding names_of
attach_only c user (n ∷ []) = bind_network c user n
attach_only c user ns = fail_registration c (
    codes "Multiple networks "
    ++ (em_dash
        ++ (codes " log in as " ++ (user ++ (codes "/<network>. Available: " ++ names_of ns)))))

unfoldable pub attach_network : Hub → Client → Bytes → Bytes → List Network → Client
unfolding unknown_net_id attach_only names_of
attach_network hub c user sel ns =
    if not (is_empty c.bound_net_id)
    then elim (find_network (is_bound c.bound_net_id) ns) [
      | some n ↦ bind_network c user n
      | none ↦ unknown_net_id c
    ]
    else if not (is_empty sel)
    then elim (find_network (is_selected hub (to_lower hub.unicode_lower sel)) ns) [
      | some n ↦ bind_network c user n
      | none ↦ fail_registration c (
          codes "Unknown network '"
          ++ (sel ++ (codes "' " ++ (em_dash ++ (codes " available: " ++ names_of ns)))))
    ]
    else attach_only c user ns

unfoldable pub no_networks : List Network → Bool
no_networks [] = true
no_networks (n ∷ ns) = false

unfoldable pub attach_tenant : Hub → Client → Bytes → Bytes → Tenant → Client
unfolding attach_network no_networks
attach_tenant hub c user sel t =
    if not (bouncer_allowed t)
    then fail_registration c (
        codes "IRC client access is disabled for this account "
        ++ (em_dash ++ codes " enable it in the web UI under Settings"))
    else elim t.networks [
      | none ↦ fail_registration c (codes "User state unavailable")
      | some ns ↦
          if is_empty c.bound_net_id && (is_empty sel && has_cap c.caps cap_bouncer_networks)
          then register_control c user
          else if no_networks ns
          then fail_registration c (
              codes "No IRC networks configured "
              ++ (em_dash ++ codes " add one in the web UI first"))
          else attach_network hub c user sel ns
    ]

-- `completeAttach`
unfoldable pub complete_attach : Hub → Client → Bytes → Bytes → Client
unfolding attach_tenant
complete_attach hub c user sel = elim (hub.tenant user) [
  | none ↦ fail_registration c (codes "User account not found")
  | some t ↦ attach_tenant hub c user sel t
]

-- The network selector and the secret of a login in single-user mode.
unfoldable pub single_user_login : Client → Bytes × Bytes
single_user_login c =
    if is_empty c.pass_raw
    then ((unmarshal_login c.client_user).network, [])
    else elim (parse_credentials c.pass_raw c.client_user) [
      | some creds ↦ (creds.network, creds.secret)
      | none ↦ ([], [])
    ]

unfoldable pub authenticate_single : Hub → Client → Client
unfolding single_user_login
authenticate_single hub c =
    let (sel, secret) = single_user_login c in
    if single_user_authorized hub c.remote_addr secret
    then complete_attach hub c (single_user_id hub) sel
    else if is_empty hub.password_hash
    then fail_registration c (
        codes
          "No password is set, so only connections from this machine are accepted. Set STUGAN_WEB_PASSWORD (or configure [[users]]) to allow remote IRC clients")
    else fail_registration c
        (codes "Invalid password: use the web password as the server password or SASL password")

-- with credentials that parse
unfoldable pub authenticate_as : Hub → Client → ParsedCredentials → Client
authenticate_as hub c creds =
    if is_empty creds.username
    then fail_registration c
        (codes "Invalid credentials format: PASS <username>[/<network>]:<password>")
    else elim (hub.login creds.username creds.secret) [
      | none ↦ fail_registration c (codes "Invalid username or password")
      | some user ↦ complete_attach hub c user creds.network
    ]

unfoldable pub authenticate_pass : Hub → Client → Client
unfolding authenticate_as
authenticate_pass hub c =
    if is_empty c.pass_raw
    then fail_registration c (codes "Password required: PASS <username>[/<network>]:<password>")
    else elim (parse_credentials c.pass_raw c.client_user) [
      | none ↦
          fail_registration c
            (codes "Invalid credentials format: PASS <username>[/<network>]:<password>")
      | some creds ↦ authenticate_as hub c creds
    ]

-- `authenticate`
unfoldable pub authenticate : Hub → Client → Client
unfolding authenticate_single authenticate_pass
authenticate hub c =
    if not (is_empty c.sasl_user)
    then complete_attach hub c c.sasl_user (
        if is_empty c.sasl_network then (unmarshal_login c.client_user).network else c.sasl_network)
    else if not hub.auth_enabled
    then authenticate_single hub c
    else authenticate_pass hub c

-- `maybeFinishRegistration`
unfoldable pub maybe_finish_registration : Hub → Client → Client
maybe_finish_registration hub c =
    if c.registered || c.closed
    then c
    else if is_empty c.client_nick || (is_empty c.client_user || c.cap_negotiating)
    then c
    else authenticate hub c
