-- ===== src/Core/Autojoin.antt =====
-- internal/core/types.go: the channels that a network joins by itself, and their keys. Names are compared
-- as `EqualIRC` does; the map of keys is a list, of which a loop takes the first that fits.
pub mod Lookups
mod Examples
use stugan.Base.{
  Bool, true, false, not, ◌&&◌, ◌||◌, Option, none, some, List, [], ◌∷◌, ◌++◌, Bytes, str_eq,
  if◌then◌else◌,
}
use stugan.Go.Strings.{is_empty}
use stugan.Core.Names.{equal_irc, is_channel_name}

-- `Channels` and `ChannelKeys` of a network's settings
pub record Autojoin : Type 0 where
  pub channels : List Bytes
  pub channel_keys : List (Bytes × Bytes)

-- `lookupChannelKey`. The code goes through the map in any order; here the keys are in a list and the first
-- one that fits is taken, which differs only where two keys of the map are equal up to case.
unfoldable pub lookup_channel_key : Bytes → List (Bytes × Bytes) → Option Bytes
lookup_channel_key name [] = none
lookup_channel_key name ((k, v) ∷ ks) =
    let rest = lookup_channel_key name ks in if equal_irc k name then some v else rest

-- `deleteChannelKey`
unfoldable pub delete_channel_key : Bytes → List (Bytes × Bytes) → List (Bytes × Bytes)
delete_channel_key name [] = []
delete_channel_key name ((k, v) ∷ ks) =
    let rest = delete_channel_key name ks in if equal_irc k name then rest else (k, v) ∷ rest

-- `setChannelKey`, with whether the map changed
unfoldable pub set_channel_key : Bytes → Bytes → List (Bytes × Bytes) → List (Bytes × Bytes) × Bool
set_channel_key name key ks =
    if is_empty key
    then elim (lookup_channel_key name ks) [
      | none ↦ (ks, false)
      | some cur ↦ (delete_channel_key name ks, true)
    ]
    else elim (lookup_channel_key name ks) [
      | none ↦ ((name, key) ∷ delete_channel_key name ks, true)
      | some cur ↦
          if str_eq cur key then (ks, false) else ((name, key) ∷ delete_channel_key name ks, true)
    ]

-- the name under which a channel is listed
unfoldable pub listed_as : Bytes → List Bytes → Option Bytes
listed_as name [] = none
listed_as name (c ∷ cs) = let rest = listed_as name cs in if equal_irc c name then some c else rest

-- the key for a name, if one was given
unfoldable pub keyed : Autojoin → Bytes → Option Bytes → Bool → Autojoin × Bool
keyed n name none changed = (n, changed)
keyed n name (some key) changed =
    let (ks, set) = set_channel_key name key n.channel_keys in
    (record n { channel_keys = ks }, set || changed)

-- `addAutojoin`; `key` is `none` where `hasKey` is false
unfoldable pub add_autojoin : Autojoin → Bytes → Option Bytes → Autojoin × Bool
unfolding keyed
add_autojoin n name key =
    if not (is_channel_name name) then (n, false) else elim (listed_as name n.channels) [
      | some c ↦ keyed n c key false
      | none ↦ keyed (record n { channels = n.channels ++ name ∷ [] }) name key true
    ]

unfoldable pub drop_channel : Bytes → List Bytes → List Bytes
drop_channel name [] = []
drop_channel name (c ∷ cs) =
    let rest = drop_channel name cs in if equal_irc c name then cs else c ∷ rest

-- whether a channel is listed
unfoldable pub is_listed : Bytes → List Bytes → Bool
is_listed name cs = elim (listed_as name cs) [ some c ↦ true | none ↦ false ]

-- `removeAutojoin`
unfoldable pub remove_autojoin : Autojoin → Bytes → Autojoin × Bool
unfolding is_listed
remove_autojoin n name = elim (lookup_channel_key name n.channel_keys) [
  | none ↦ (record n { channels = drop_channel name n.channels }, is_listed name n.channels)
  | some cur ↦ (
    record n {
      channels = drop_channel name n.channels;
      channel_keys = delete_channel_key name n.channel_keys;
    },
    true,
  )
]
