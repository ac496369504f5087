-- ===== src/IrcServer/Caps.antt =====
-- internal/ircserver/isupport.go: the capabilities and tokens that clients are told.
use stugan.Base.{
  ℕ, Bool, false, ◌&&◌, ◌||◌, List, [], ◌∷◌, ◌++◌, Bytes, codes, if◌then◌else◌, leb, str_eq,
}
use stugan.Go.Strings.{join, trim_prefix_byte}

abbrev pub cap_sasl : Bytes
cap_sasl = codes "sasl"

abbrev pub supported_caps : List Bytes
supported_caps =
    cap_sasl
    ∷ codes "server-time"
    ∷ codes "message-tags"
    ∷ codes "echo-message"
    ∷ codes "znc.in/self-message"
    ∷ codes "batch"
    ∷ codes "draft/chathistory"
    ∷ codes "soju.im/bouncer-networks"
    ∷ codes "soju.im/bouncer-networks-notify"
    ∷ codes "draft/read-marker"
    ∷ codes "read-marker"
    ∷ []

abbrev pub sasl_mechanisms : List Bytes
sasl_mechanisms = codes "PLAIN" ∷ []

unfoldable pub is_among : List Bytes → Bytes → Bool
is_among [] c = false
is_among (x ∷ xs) c = str_eq x c || is_among xs c

-- `isCapSupported`
unfoldable pub is_cap_supported : Bytes → Bool
unfolding is_among
is_cap_supported cap_name = is_among supported_caps (trim_prefix_byte cap_name b'-')

-- the loop of `capLsList`
ls_tokens : Bool → List Bytes → List Bytes
ls_tokens modern [] = []
ls_tokens modern (c ∷ cs) =
    (if str_eq c cap_sasl && modern then codes "sasl=" ++ join sasl_mechanisms (codes ",") else c)
    ∷ ls_tokens modern cs

pub cap_ls_list : ℕ → Bytes
unfolding ls_tokens
cap_ls_list version = join (ls_tokens (leb 302 version) supported_caps) (codes " ")

pub default_isupport_tokens : List Bytes
default_isupport_tokens =
    codes "CHANTYPES=#&"
    ∷ codes "PREFIX=(ov)@+"
    ∷ codes "CASEMAPPING=rfc1459"
    ∷ codes "NICKLEN=32"
    ∷ codes "CHANNELLEN=64"
    ∷ codes "NETWORK=stugan"
    ∷ []
