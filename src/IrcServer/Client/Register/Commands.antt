-- ===== src/IrcServer/Client/Register/Commands.antt =====
-- The commands before the registration: `handlePreRegistration` and `handleBouncerPreReg`.
use stugan.Base.{not, ◌&&◌, Option, none, some, List, [], ◌∷◌, Bytes, codes, if◌then◌else◌, str_eq}
use stugan.Go.Strings.{is_empty, to_upper}
use stugan.IrcServer.Parse.{Message}
use stugan.IrcServer.Client.{Hub, Client, server_name, has_cap, reply, numeric, destroy, clean_nick}
use stugan.IrcServer.Client.Caps.{param_0, handle_cap}
use stugan.IrcServer.Client.Sasl.{handle_sasl}
use stugan.IrcServer.Client.Register.{cap_bouncer_networks, maybe_finish_registration}

unfoldable pub bind_id : Client → List Bytes → Client
bind_id c (sub ∷ (id ∷ ps)) = record c { bound_net_id = id }
bind_id c _ = c

-- `handleBouncerPreReg`
unfoldable pub handle_bouncer_pre_reg : Hub → Client → Message → Client
unfolding bind_id
handle_bouncer_pre_reg hub c msg =
    let sub = to_upper hub.unicode_upper (param_0 msg.params) in
    if not (has_cap c.caps cap_bouncer_networks)
    then reply c (codes "FAIL") (
        codes "BOUNCER"
        ∷ (codes "UNKNOWN_COMMAND"
            ∷ (codes ":Negotiate soju.im/bouncer-networks capability first" ∷ [])))
    else if not (str_eq sub (codes "BIND"))
    then reply c (codes "FAIL")
        (codes "BOUNCER" ∷ (codes "UNKNOWN_COMMAND" ∷ (sub ∷ (codes ":Unknown subcommand" ∷ []))))
    else if is_empty c.sasl_user && (is_empty c.pass_raw && hub.auth_enabled)
    then reply c (codes "FAIL") (
        codes "BOUNCER"
        ∷ (codes "ACCOUNT_REQUIRED"
            ∷ (codes "BIND" ∷ (codes ":Authentication needed to bind to bouncer network" ∷ []))))
    else bind_id c msg.params

-- the commands that keep a text for the registration
unfoldable pub set_user : Client → List Bytes → Client
set_user c [] = c
set_user c (u ∷ (m ∷ (x ∷ (r ∷ ps)))) = record c { client_user = u; client_realname = r }
set_user c (u ∷ ps) = record c { client_user = u }

unfoldable pub set_pass : Client → List Bytes → Client
set_pass c [] = c
set_pass c (p ∷ ps) = record c { pass_raw = p }

unfoldable pub set_nick : Hub → Client → List Bytes → Client
set_nick hub c [] = c
set_nick hub c (n ∷ ps) = record c { client_nick = clean_nick hub n }

unfoldable pub pong : Client → List Bytes → Client
pong c [] = reply c (codes "PONG") (server_name ∷ (server_name ∷ []))
pong c (token ∷ ps) = reply c (codes "PONG") (server_name ∷ (token ∷ []))

-- The command itself; `none` for QUIT, which ends the handler.
unfoldable pub pre_command : Hub → Client → Message → Option Client
unfolding set_user set_pass set_nick pong
pre_command hub c msg =
    if str_eq msg.command (codes "CAP")
    then some (handle_cap hub c msg)
    else if str_eq msg.command (codes "PASS")
    then some (set_pass c msg.params)
    else if str_eq msg.command (codes "NICK")
    then some (set_nick hub c msg.params)
    else if str_eq msg.command (codes "USER")
    then some (set_user c msg.params)
    else if str_eq msg.command (codes "AUTHENTICATE")
    then some (handle_sasl hub c msg)
    else if str_eq msg.command (codes "BOUNCER")
    then some (handle_bouncer_pre_reg hub c msg)
    else if str_eq msg.command (codes "PING")
    then some (pong c msg.params)
    else if str_eq msg.command (codes "QUIT")
    then none
    else some (numeric c (codes "451") (codes ":You have not registered" ∷ []))

-- `handlePreRegistration`
unfoldable pub handle_pre_registration : Hub → Client → Message → Client
handle_pre_registration hub c msg = elim (pre_command hub c msg) [
  | none ↦ destroy c
  | some c' ↦ maybe_finish_registration hub c'
]
