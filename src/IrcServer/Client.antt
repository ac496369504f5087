-- ===== src/IrcServer/Client.antt =====
-- internal/ircserver/session.go: a client's connection until it is registered. What the bursts after
-- the registration say is not modelled: that one is due is an item of `out`.
pub mod Caps
pub mod Sasl
pub mod Register
pub mod Vouched
pub mod Reassembly
mod Examples
use stugan.Base.{
  ℕ, Bool, true, false, not, ◌&&◌, ◌||◌, Option, none, some, List, [], ◌∷◌, ◌++◌, Bytes, codes, map,
  ◌==◌, ltb, if◌then◌else◌, str_eq, take, length,
}
use stugan.Go.Strings.{is_empty}
use stugan.Go.Space.{trim_space}
use stugan.Go.Utf8.{chars}
use stugan.IrcServer.Format.{format_line}

abbrev pub server_name : Bytes
server_name = codes "stugan.bouncer"

-- A network of a user's snapshot.
pub record Network : Type 0 where
  pub id : Bytes
  pub name : Bytes
  pub state : Bytes

-- `server.Tenant`: the preference store may be missing or fail; the snapshot may be nil.
pub record Tenant : Type 0 where
  pub pref_bouncer : Option (Option Bytes)
  pub networks : Option (List Network)

-- The interface `Hub`, the options of the server and what the code takes from libraries.
pub record Hub : Type 0 where
  pub auth_enabled : Bool
  pub login : Bytes → Bytes → Option Bytes
  pub tenant : Bytes → Option Tenant
  pub users : List Bytes
  pub password_hash : Bytes
  -- `bcrypt.CompareHashAndPassword`
  pub hash_matches : Bytes → Bytes → Bool
  -- `net.SplitHostPort`, and whether a host parses to a loopback address
  pub host_of : Bytes → Option Bytes
  pub loops_back : Bytes → Bool
  -- `base64.StdEncoding.DecodeString`
  pub decode_base64 : Bytes → Option Bytes
  -- the Unicode tables
  pub unicode_upper : Bytes → Bytes
  pub unicode_lower : Bytes → Bytes
  pub is_letter : Bytes → Bool
  pub is_digit : Bytes → Bool

pub data Said : Type 0 where
  line : Bytes → Said
  attach_burst : Bytes → Said
  control_burst : Said

-- `Session`. `room` is whether the queue of lines has room when a line is pushed.
pub record Client : Type 0 where
  pub remote_addr : Bytes
  pub room : Bool
  pub out : List Said
  pub caps : List Bytes
  pub cap_negotiating : Bool
  pub sasl_mech : Bytes
  pub sasl_buf : Bytes
  pub sasl_user : Bytes
  pub sasl_network : Bytes
  pub pass_raw : Bytes
  pub client_nick : Bytes
  pub client_user : Bytes
  pub client_realname : Bytes
  pub registered : Bool
  pub closed : Bool
  pub user_id : Bytes
  pub network_id : Bytes
  pub bound_net_id : Bytes
  pub is_control : Bool
  pub reg_timer : Bool

-- `newSession`
unfoldable pub new_client : Bytes → Bool → Client
new_client remote_addr room = record {
  remote_addr = remote_addr;
  room = room;
  out = [];
  caps = [];
  cap_negotiating = false;
  sasl_mech = [];
  sasl_buf = [];
  sasl_user = [];
  sasl_network = [];
  pass_raw = [];
  client_nick = [];
  client_user = [];
  client_realname = [];
  registered = false;
  closed = false;
  user_id = [];
  network_id = [];
  bound_net_id = [];
  is_control = false;
  reg_timer = true;
}

-- The three replacements of `sanitizeLine`, in one pass.
clean_byte : ℕ → ℕ
clean_byte c = if c == 13 || (c == 10 || c == 0) then b' ' else c

-- `sanitizeLine`
unfoldable pub sanitize_line : Bytes → Bytes
unfolding clean_byte
sanitize_line l = map clean_byte l ++ 13 ∷ (10 ∷ [])

-- `write`: nothing once the session is closed
unfoldable pub write : Client → Bytes → Client
write c l = if c.closed then c else record c { out = c.out ++ line (sanitize_line l) ∷ [] }

-- `destroy`
unfoldable pub destroy : Client → Client
destroy c = if c.closed then c else record c { closed = true; reg_timer = false }

-- `push`; a client that is a whole queue behind is destroyed.
unfoldable pub push : Client → Bytes → Client
push c l =
    if c.closed
    then c
    else if c.room
    then record c { out = c.out ++ line (sanitize_line l) ∷ [] }
    else destroy c

-- `closeWithError`
unfoldable pub close_with_error : Client → Bytes → Client
close_with_error c reason = destroy (push c (codes "ERROR :" ++ reason))

-- `hasCap`
unfoldable pub has_cap : List Bytes → Bytes → Bool
has_cap [] cap = false
has_cap (x ∷ xs) cap = str_eq x cap || has_cap xs cap

-- `currentNickOr` of a session that is bound to no network
unfoldable pub current_nick_or : Client → Bytes → Bytes
current_nick_or c fallback = if is_empty c.client_nick then fallback else c.client_nick

-- `_ = s.write(FormatLine("", serverName, code, params...))`
unfoldable pub reply : Client → Bytes → List Bytes → Client
reply c code params = write c (format_line [] server_name code params)

-- `numeric`
unfoldable pub numeric : Client → Bytes → List Bytes → Client
numeric c code params = reply c code (current_nick_or c (codes "*") ∷ params)

-- a character that a nick may have beside letters and digits
is_special : Bytes → Bool
is_special [] = false
is_special (c ∷ s) =
    is_empty s
    && (c == b'-'
        || (c == b'['
            || (c == b']'
                || (c == b'\\'
                    || (c == b'`'
                        || (c == b'^'
                            || (c == b'{' || (c == b'}' || (c == b'_' || c == b'|')))))))))

-- The loop of `CleanNick` over the characters.
keep_nick : Hub → List Bytes → Bytes
unfolding is_special
keep_nick hub [] = []
keep_nick hub (c ∷ cs) =
    let rest = keep_nick hub cs in
    if hub.is_letter c || (hub.is_digit c || is_special c) then c ++ rest else rest

starts_badly : Hub → List Bytes → Bool
starts_badly hub [] = false
starts_badly hub (c ∷ cs) = hub.is_digit c || str_eq c (codes "-")

-- `CleanNick`
unfoldable pub clean_nick : Hub → Bytes → Bytes
unfolding keep_nick starts_badly
clean_nick hub nick =
    let cs = chars (trim_space nick) in
    let res = (if starts_badly hub cs then b'u' ∷ [] else []) ++ keep_nick hub cs in
    if is_empty res then codes "user" else take 32 res
