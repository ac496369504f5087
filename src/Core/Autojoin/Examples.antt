-- ===== src/Core/Autojoin/Examples.antt =====
-- A channel that is added again, in another case and with a key.
use stugan.Base.{some, [], ◌∷◌, codes, ◌≡◌, ◌&&◌, ◌||◌, if◌then◌else◌}
use stugan.Core.Names.{equal_irc, is_channel_name}
use stugan.Core.Autojoin.{Autojoin, lookup_channel_key, add_autojoin}
use stugan.Core.Autojoin.Lookups.{is_joined, added_key, add_autojoin-lookups}

abbrev two : Autojoin
two = record {
  channels = codes "#go" ∷ (codes "#Rust" ∷ []);
  channel_keys = (codes "#Rust", codes "old") ∷ [];
}

add_autojoin-lookups_example :
    (is_joined (codes "#rust") (add_autojoin two (codes "#RUST") (some (codes "new"))).0.channels
      ≡ (is_joined (codes "#rust") two.channels
          || (is_channel_name (codes "#RUST") && equal_irc (codes "#RUST") (codes "#rust"))))
    × (lookup_channel_key
          (codes "#rust")
          (add_autojoin two (codes "#RUST") (some (codes "new"))).0.channel_keys
        ≡ (if is_channel_name (codes "#RUST")
            then added_key (codes "#RUST") (some (codes "new")) two.channel_keys (codes "#rust")
            else lookup_channel_key (codes "#rust") two.channel_keys))
add_autojoin-lookups_example =
    add_autojoin-lookups two (codes "#RUST") (some (codes "new")) (codes "#rust")
