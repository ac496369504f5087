-- ===== src/IrcServer/Client/Examples.antt =====
-- A server with one account, its clients, and the theorems at them.
use stugan.Base.{
  Bool, true, false, ◌&&◌, ◌++◌, Option, none, some, List, [], ◌∷◌, Bytes, codes, str_eq, leb, ◌≡◌,
  refl, arith, if◌then◌else◌, ◌==◌, length,
}
use stugan.Irc.Sasl.{send_chunked}
use stugan.Go.Space.{fields}
use stugan.IrcServer.Parse.{Message}
use stugan.Go.Utf8.{chars}
use stugan.Go.Space.{trim_space}
use stugan.Go.Strings.{index_byte, index_either}
use stugan.IrcServer.Login.{parse_credentials, unmarshal_login}
use stugan.IrcServer.Client.{Hub, Network, Client, new_client, has_cap, current_nick_or, clean_nick}
use stugan.IrcServer.Client.Register.{
  maybe_finish_registration, authenticate, authenticate_pass, authenticate_as, complete_attach,
  attach_tenant, attach_network, attach_only, bouncer_allowed, bind_network,
}
use stugan.IrcServer.Client.Register.Commands.{
  handle_pre_registration, pre_command, set_pass, set_nick, set_user,
}
use stugan.IrcServer.Client.Caps.{handle_cap, param_1}
use stugan.IrcServer.Client.Sasl.{finish_sasl_plain, reset_sasl}
use stugan.IrcServer.Client.Caps.Negotiated.{wanted, is_taken, Offered, handle_cap-negotiated}
use stugan.IrcServer.Client.Reassembly.{feed, feed-send_chunked}
use stugan.IrcServer.Client.Vouched.{Vouched, Allowed}
use stugan.IrcServer.Client.Vouched.Serve.{serve, serve-registered}

abbrev letter : Bytes → Bool
letter [] = false
letter (c ∷ s) = leb b'a' c && leb c b'z'

abbrev login : Bytes → Bytes → Option Bytes
login name secret = if str_eq secret (codes "pw") then some name else none

abbrev libera : Network
libera = record { id = codes "libera"; name = codes "libera"; state = codes "registered" }

abbrev hub : Hub
hub = record {
  auth_enabled = true;
  login = login;
  tenant = λ _. some (record { pref_bouncer = none; networks = some (libera ∷ []) });
  users = [];
  password_hash = [];
  hash_matches = λ _ _. false;
  host_of = λ _. none;
  loops_back = λ _. false;
  decode_base64 = λ _. none;
  unicode_upper = λ s. s;
  unicode_lower = λ s. s;
  is_letter = letter;
  is_digit = λ _. false;
}

abbrev message : Bytes → List Bytes → Message
message command params = record {
  raw_tags = [];
  tags = [];
  prefix = [];
  command = command;
  params = params;
}

abbrev hello : List Message
hello =
    message (codes "PASS") (codes "al:pw" ∷ [])
    ∷ message (codes "NICK") (codes "bob" ∷ [])
    ∷ message (codes "USER") (codes "al" ∷ [])
    ∷ []

al_is_registered : (serve hub (new_client (codes "h") true) hello).registered ≡ true
unfolding serve new_client handle_pre_registration pre_command str_eq maybe_finish_registration
    clean_nick chars trim_space authenticate authenticate_pass authenticate_as parse_credentials
    unmarshal_login index_byte index_either complete_attach attach_tenant attach_network attach_only
    bouncer_allowed has_cap bind_network set_pass set_nick set_user
al_is_registered = refl

serve-registered_example :
    Vouched hub
      (serve hub (new_client (codes "h") true) hello).remote_addr
      (serve hub (new_client (codes "h") true) hello).user_id
    × Allowed hub (serve hub (new_client (codes "h") true) hello).user_id
serve-registered_example = serve-registered hub (codes "h") true hello al_is_registered

abbrev wish : Message
wish = message (codes "REQ") (codes "REQ" ∷ (codes "batch -sasl" ∷ []))

handle_cap-negotiated_example :
    Offered (handle_cap hub (new_client [] true) wish).caps
    × ((cap : Bytes)
        → has_cap (handle_cap hub (new_client [] true) wish).caps cap ≡ (
            if is_taken hub wish
            then wanted (has_cap (new_client [] true).caps cap) (fields (param_1 wish.params)) cap
            else has_cap (new_client [] true).caps cap))
unfolding new_client
handle_cap-negotiated_example = handle_cap-negotiated hub (new_client [] true) wish tt

-- in the middle of SASL PLAIN
abbrev asked : Client
asked = record (new_client [] true) { caps = codes "sasl" ∷ []; sasl_mech = codes "PLAIN" }

abbrev writes : Bytes → List Bytes
writes last = if length last == 400 then last ∷ (codes "+" ∷ []) else last ∷ []

feed-send_chunked_example :
    feed hub asked
      ((send_chunked (codes "AGFsAHB3")).0 ++ writes (send_chunked (codes "AGFsAHB3")).1)
    ≡ finish_sasl_plain hub
        (reset_sasl asked)
        (codes "AGFsAHB3")
        (current_nick_or asked (codes "*"))
unfolding new_client has_cap str_eq
feed-send_chunked_example =
    feed-send_chunked hub asked (record { has_sasl = refl; has_mech = refl }) writes
      (record { sends_last = λ last pos small. refl }) (codes "AGFsAHB3") refl (omega arith)
      (omega arith) (omega arith)
