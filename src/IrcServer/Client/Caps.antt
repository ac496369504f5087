-- ===== src/IrcServer/Client/Caps.antt =====
-- `handleCap`.
pub mod Negotiated
use stugan.Base.{
  ℕ, Bool, true, false, not, ◌&&◌, ◌||◌, List, [], ◌∷◌, ◌++◌, Bytes, codes, if◌then◌else◌, str_eq,
}
use stugan.Go.Strings.{is_empty, has_prefix, starts_with_byte, trim_prefix_byte, join, to_upper}
use stugan.Go.Space.{fields}
use stugan.IrcServer.Parse.{Message}
use stugan.IrcServer.Caps.{is_cap_supported, cap_ls_list}
use stugan.IrcServer.Client.{Hub, Client, has_cap, reply, current_nick_or}

-- `msg.Params[0]` and `msg.Params[1]`, or the empty text
abbrev pub param_0 : List Bytes → Bytes
param_0 [] = []
param_0 (p ∷ ps) = p

abbrev pub param_1 : List Bytes → Bytes
param_1 [] = []
param_1 (p ∷ ps) = param_0 ps

pub all_supported : List Bytes → Bool
all_supported [] = true
all_supported (c ∷ cs) = is_cap_supported c && all_supported cs

-- `delete(s.caps, c)`
pub drop_cap : List Bytes → Bytes → List Bytes
drop_cap [] cap = []
drop_cap (x ∷ xs) cap = let rest = drop_cap xs cap in if str_eq x cap then rest else x ∷ rest

-- `s.caps[c] = true`
pub add_cap : List Bytes → Bytes → List Bytes
add_cap caps cap = if has_cap caps cap then caps else caps ++ cap ∷ []

-- The loop over a request that is taken.
pub change_caps : List Bytes → List Bytes → List Bytes
change_caps caps [] = caps
change_caps caps (c ∷ cs) =
    change_caps
      (if starts_with_byte c b'-' then drop_cap caps (trim_prefix_byte c b'-') else add_cap caps c)
      cs

unfoldable pub no_fields : List Bytes → Bool
no_fields [] = true
no_fields (c ∷ cs) = false

-- `if !s.registered { s.capNegotiating = true }`
unfoldable pub negotiating : Client → Client
negotiating c = if c.registered then c else record c { cap_negotiating = true }

version_of : List Bytes → ℕ
version_of params = if has_prefix (param_1 params) (codes "302") then 302 else 301

-- the answer to a subcommand
unfoldable pub cap_reply : Client → Bytes → Bytes → Client
cap_reply c sub text =
    reply c (codes "CAP") (current_nick_or c (codes "*") ∷ (sub ∷ ((b':' ∷ text) ∷ [])))

unfoldable pub request : Client → Bytes → Client
unfolding no_fields cap_reply
request c req =
    let requested = fields req in
    if not (all_supported requested) || no_fields requested
    then cap_reply c (codes "NAK") req
    else cap_reply (record c { caps = change_caps c.caps requested }) (codes "ACK") req

unfoldable pub handle_cap : Hub → Client → Message → Client
unfolding negotiating version_of cap_reply request
handle_cap hub c msg =
    let sub = to_upper hub.unicode_upper (param_0 msg.params) in
    if str_eq sub (codes "LS")
    then cap_reply (negotiating c) (codes "LS") (cap_ls_list (version_of msg.params))
    else if str_eq sub (codes "LIST")
    then cap_reply c (codes "LIST") (join c.caps (codes " "))
    else if str_eq sub (codes "REQ")
    then request (negotiating c) (param_1 msg.params)
    else if str_eq sub (codes "END")
    then record c { cap_negotiating = false }
    else reply c (codes "410")
        (current_nick_or c (codes "*") ∷ (sub ∷ (codes ":Invalid CAP command" ∷ [])))
