-- ===== src/IrcServer/Client/Sasl.antt =====
-- `handleSasl` and `finishSaslPlain`.
use stugan.Base.{
  ℕ, Bool, false, not, ◌&&◌, ◌||◌, Option, none, some, List, [], ◌∷◌, ◌++◌, Bytes, codes, ◌==◌, ltb,
  if◌then◌else◌, str_eq, length, ◌*◌,
}
use stugan.Go.Strings.{is_empty, join, split, to_upper}
use stugan.IrcServer.Parse.{Message}
use stugan.IrcServer.Caps.{cap_sasl, sasl_mechanisms}
use stugan.IrcServer.Login.{unmarshal_login}
use stugan.IrcServer.Client.{Hub, Client, server_name, has_cap, write, reply, current_nick_or}
use stugan.IrcServer.Client.Caps.{param_0}

abbrev pub max_sasl_response : ℕ
max_sasl_response = 8 * 1024

abbrev pub sasl_chunk : ℕ
sasl_chunk = 400

-- `isLoopback`
unfoldable pub is_loopback : Hub → Bytes → Bool
is_loopback hub addr = hub.loops_back (elim (hub.host_of addr) [ some host ↦ host | none ↦ addr ])

-- `singleUserID`
unfoldable pub single_user_id : Hub → Bytes
single_user_id hub = elim hub.users [ [] ↦ codes "default" | u ∷ us ↦ u ]

-- `singleUserAuthorized`
unfoldable pub single_user_authorized : Hub → Bytes → Bytes → Bool
single_user_authorized hub remote_addr secret =
    if is_empty hub.password_hash
    then is_loopback hub remote_addr
    else not (is_empty secret) && hub.hash_matches hub.password_hash secret

-- The user that a name and a password log in, in either mode.
unfoldable pub vouched_user : Hub → Bytes → Bytes → Bytes → Option Bytes
vouched_user hub remote_addr username secret =
    if hub.auth_enabled
    then hub.login username secret
    else if single_user_authorized hub remote_addr secret
    then some (single_user_id hub)
    else none

unfoldable pub sasl_failed : Client → Bytes → Client
sasl_failed c nick = reply c (codes "904") (nick ∷ (codes ":SASL authentication failed" ∷ []))

unfoldable pub logged_in : Client → Bytes → Bytes → Bytes → Client
logged_in c nick user network =
    let c' = record c { sasl_user = user; sasl_network = network } in
    let told = reply c' (codes "900") (
      nick
      ∷ ((nick ++ (codes "!stugan@" ++ server_name))
          ∷ (user ∷ ((codes ":You are now logged in as " ++ user) ∷ [])))) in
    reply told (codes "903") (nick ∷ (codes ":SASL authentication successful" ∷ []))

-- `finishSaslPlain` on the three parts of the response
unfoldable pub finish_parts : Hub → Client → Bytes → Bytes → Bytes → Bytes → Client
unfolding sasl_failed logged_in
finish_parts hub c nick authzid authcid passwd =
    let parsed = unmarshal_login (if is_empty authcid then authzid else authcid) in
    if is_empty parsed.username || is_empty passwd
    then sasl_failed c nick
    else elim (vouched_user hub c.remote_addr parsed.username passwd) [
      | none ↦ sasl_failed c nick
      | some user ↦ logged_in c nick user parsed.network
    ]

unfoldable pub finish_decoded : Hub → Client → Bytes → List Bytes → Client
unfolding finish_parts
finish_decoded hub c nick (z ∷ (u ∷ (p ∷ []))) = finish_parts hub c nick z u p
finish_decoded hub c nick _ = sasl_failed c nick

-- `finishSaslPlain`
unfoldable pub finish_sasl_plain : Hub → Client → Bytes → Bytes → Client
unfolding finish_decoded
finish_sasl_plain hub c b64 nick = elim (hub.decode_base64 b64) [
  | none ↦ sasl_failed c nick
  | some decoded ↦ finish_decoded hub c nick (split decoded 0)
]

unfoldable pub has_mech : List Bytes → Bytes → Bool
has_mech [] mech = false
has_mech (m ∷ ms) mech = str_eq m mech || has_mech ms mech

-- the first message: the mechanism
unfoldable pub choose_mech : Hub → Client → Bytes → Bytes → Client
unfolding has_mech
choose_mech hub c nick arg =
    let mech = to_upper hub.unicode_upper arg in
    if has_mech sasl_mechanisms mech
    then write (record c { sasl_mech = mech; sasl_buf = [] }) (codes "AUTHENTICATE +")
    else sasl_failed
        (reply c (codes "908") (
          nick
          ∷ (join sasl_mechanisms (codes ",") ∷ (codes ":are available SASL mechanisms" ∷ []))))
        nick

unfoldable pub reset_sasl : Client → Client
reset_sasl c = record c { sasl_mech = []; sasl_buf = [] }

-- the end of the response: what was gathered is checked
unfoldable pub finish_response : Hub → Client → Bytes → Client
unfolding reset_sasl
finish_response hub c nick = finish_sasl_plain hub (reset_sasl c) c.sasl_buf nick

-- a part of the response
unfoldable pub take_chunk : Hub → Client → Bytes → Bytes → Client
unfolding reset_sasl
take_chunk hub c nick arg =
    let c' = record c { sasl_buf = c.sasl_buf ++ arg } in
    if ltb max_sasl_response (length c'.sasl_buf)
    then reply (reset_sasl c') (codes "904") (nick ∷ (codes ":SASL message too long" ∷ []))
    else if length arg == sasl_chunk
    then c'
    else finish_response hub c' nick

-- `handleSasl`
unfoldable pub handle_sasl : Hub → Client → Message → Client
unfolding choose_mech sasl_failed reset_sasl
handle_sasl hub c msg =
    let nick = current_nick_or c (codes "*") in
    let arg = param_0 msg.params in
    if not (has_cap c.caps cap_sasl)
    then reply c (codes "904") (nick ∷ (codes ":You must request the sasl capability first" ∷ []))
    else if is_empty c.sasl_mech
    then choose_mech hub c nick arg
    else if str_eq arg (codes "*")
    then reply (reset_sasl c) (codes "906") (nick ∷ (codes ":SASL authentication aborted" ∷ []))
    else if str_eq arg (codes "+")
    then finish_response hub c nick
    else take_chunk hub c nick arg
