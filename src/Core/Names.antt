-- ===== src/Core/Names.antt =====
-- Names of channels, queries and buffers: FoldIRC of internal/core/sink.go, and the tests on buffer names
-- of internal/core/engine.go.
use stugan.Base.{Bool, false, not, ◌&&◌, ◌||◌, List, [], ◌∷◌, ◌++◌, map, Bytes, codes, ◌==◌, str_eq}
use stugan.Go.Utf8.{chars}
use stugan.Engine.IrcLine.{fold_byte}

-- `strings.Map` over the characters: the ASCII ones are folded.
unfoldable pub fold_chars : List Bytes → Bytes
fold_chars [] = []
fold_chars (c ∷ cs) = map fold_byte c ++ fold_chars cs

-- `FoldIRC`
unfoldable pub fold_irc : Bytes → Bytes
unfolding fold_chars
fold_irc s = fold_chars (chars s)

-- `EqualIRC`
unfoldable pub equal_irc : Bytes → Bytes → Bool
equal_irc a b = str_eq (fold_irc a) (fold_irc b)

abbrev pub status_buffer : Bytes
status_buffer = codes "*status"

-- `IsPluginBuffer`
unfoldable pub is_plugin_buffer : Bytes → Bool
is_plugin_buffer (c ∷ (d ∷ name)) = c == b'*' && not (str_eq (c ∷ (d ∷ name)) status_buffer)
is_plugin_buffer _ = false

-- `isChannelName`
unfoldable pub is_channel_name : Bytes → Bool
is_channel_name [] = false
is_channel_name (c ∷ s) = c == b'#' || (c == b'&' || (c == b'+' || c == b'!'))

-- `IsQueryBuffer`
unfoldable pub is_query_buffer : Bytes → Bool
unfolding is_channel_name
is_query_buffer name = not (str_eq name status_buffer) && not (is_channel_name name)
