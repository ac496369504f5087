-- ===== src/IrcServer/Format.antt =====
-- internal/ircserver/parse.go: lines to clients.
use stugan.Base.{ℕ, List, [], ◌∷◌, ◌++◌, Bytes, if◌then◌else◌}
use stugan.Go.Strings.{contains_byte, starts_with_byte}

-- a section with its mark and its space, if there is one
mark_section : ℕ → Bytes → Bytes
mark_section mark [] = []
mark_section mark (c ∷ s) = mark ∷ (c ∷ s ++ b' ' ∷ [])

-- the last parameter as it is written
last_param : Bytes → Bytes
last_param [] = b':' ∷ []
last_param (c ∷ s) =
    if starts_with_byte (c ∷ s) b':'
    then c ∷ s
    else if contains_byte (c ∷ s) b' '
    then b':' ∷ (c ∷ s)
    else c ∷ s

write_params : List Bytes → Bytes
unfolding last_param
write_params [] = []
write_params (p ∷ []) = b' ' ∷ last_param p
write_params (p ∷ (q ∷ ps)) = b' ' ∷ (p ++ write_params (q ∷ ps))

-- `FormatLine`
unfoldable pub format_line : Bytes → Bytes → Bytes → List Bytes → Bytes
unfolding mark_section write_params
format_line tags prefix command params =
    mark_section b'@' tags ++ (mark_section b':' prefix ++ (command ++ write_params params))
