-- ===== src/IrcServer/Examples.antt =====
-- Lines and logins, and the theorems at them.
use stugan.Go.Strings.{index_byte}
use stugan.Core.Bouncer.Commands.{bound_login, split_client, without_network}
use stugan.IrcServer.Login.Bound.{unmarshal_login-bound_login}
use stugan.Base.{[], ◌∷◌, codes, some, ◌≡◌, refl, arith, str_eq}
use stugan.Go.Strings.{
  index_either, last_index_byte, starts_with_byte, contains_byte, trim_left, behind, join, split,
  to_upper, before,
}
use stugan.Go.Space.{trim_space, fields}
use stugan.Go.Utf8.{chars}
use stugan.IrcServer.Parse.{parse_line, escape_tag_value, unescape_tag_value}
use stugan.IrcServer.Parse.Tags.{unescape_tag_value-escape_tag_value}
use stugan.IrcServer.Format.{format_line}
use stugan.IrcServer.Login.{unmarshal_login}

unescape_tag_value-escape_tag_value_example :
    unescape_tag_value (escape_tag_value (codes "a; b\\")) ≡ codes "a; b\\"
unescape_tag_value-escape_tag_value_example =
    unescape_tag_value-escape_tag_value (codes "a; b\\") (ground arith)

phone_login :
    unmarshal_login (codes "alice/libera@phone")
    ≡ record { username = codes "alice"; network = codes "libera"; client = codes "phone" }
unfolding unmarshal_login trim_space index_either last_index_byte
phone_login = refl

typing_line :
    parse_line (λ s. s) (codes "@+typing=active;time=x :me PRIVMSG #go :hello there")
    ≡ some (record {
      raw_tags = codes "+typing=active";
      tags = (codes "+typing", codes "active") ∷ [];
      prefix = [];
      command = codes "PRIVMSG";
      params = codes "#go" ∷ (codes "hello there" ∷ []);
    })
unfolding parse_line starts_with_byte contains_byte trim_left behind fields join split to_upper
    before unescape_tag_value chars str_eq
typing_line = refl

-- A text that starts with a colon loses it on the way.
smile_line :
    format_line [] (codes "bob") (codes "PRIVMSG") (codes "#go" ∷ (codes ":)" ∷ []))
    ≡ codes ":bob PRIVMSG #go :)"
unfolding format_line contains_byte starts_with_byte
smile_line = refl

smile_lost :
    parse_line (λ s. s) (codes ":bob PRIVMSG #go :)")
    ≡ some (record {
      raw_tags = [];
      tags = [];
      prefix = [];
      command = codes "PRIVMSG";
      params = codes "#go" ∷ (codes ")" ∷ []);
    })
unfolding parse_line starts_with_byte contains_byte trim_left behind fields to_upper
smile_lost = refl

unmarshal_login-bound_login_example :
    unmarshal_login (bound_login (codes "alex@laptop") (codes "libera"))
    ≡ record { username = codes "alex"; network = codes "libera"; client = codes "laptop" }
unfolding bound_login split_client without_network index_byte trim_space
unmarshal_login-bound_login_example =
    unmarshal_login-bound_login (codes "alex") (some (codes "laptop")) (codes "libera")
      (ground arith) (ground arith) (ground arith) refl
