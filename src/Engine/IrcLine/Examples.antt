-- ===== src/Engine/IrcLine/Examples.antt =====
-- Concrete lines, and the theorems at them.
use mathlib.Core.Option
use stugan.Base.{◌≡◌, refl, [], ◌∷◌, ◌++◌, Bytes, codes, arith}
use stugan.Go.Strings.{trim_left, behind, before}
use stugan.Engine.IrcLine.{params_loop, params_of, parse_line, rewrite_target}
use stugan.Engine.IrcLine.Params.{params_loop_enough}
use stugan.Engine.IrcLine.Spaced.{Head, IsHead, spaced}
use stugan.Engine.IrcLine.Rewrite.{addressed, parse_line-rewrite_target}

abbrev text_of : Bytes
text_of = codes "#go bob :so long"

params_loop_enough_example :
    params_loop 16 text_of (codes "op" ∷ []) ≡ (codes "op" ∷ []) ++ params_loop 99 text_of []
params_loop_enough_example =
    params_loop_enough 16 99 text_of (codes "op" ∷ []) (omega arith) (omega arith)

text_of_params : params_of text_of ≡ codes "#go" ∷ (codes "bob" ∷ (codes "so long" ∷ []))
unfolding params_of trim_left behind before
text_of_params = refl

-- `:srv 001 guest :Welcome`
abbrev welcome_head : Head
welcome_head = record { tags = []; source = codes "srv"; cmd = codes "001" }

welcome_head-IsHead : IsHead welcome_head
welcome_head-IsHead = record {
  tags_lack = ground arith;
  source_lacks = ground arith;
  cmd_lacks = ground arith;
  cmd_space = ground arith;
  cmd_tag = ground arith;
  cmd_source = ground arith;
}

parse_line-rewrite_target_example :
    parse_line
      (λ s. s)
      (rewrite_target
        (spaced welcome_head (codes "guest" ++ b' ' ∷ codes ":Welcome"))
        (codes "bob"))
    ≡ Option.map
        (addressed (codes "bob"))
        (parse_line (λ s. s) (spaced welcome_head (codes "guest" ++ b' ' ∷ codes ":Welcome")))
parse_line-rewrite_target_example =
    parse_line-rewrite_target (λ s. s) welcome_head (codes "bob") (codes "guest") (codes ":Welcome")
      welcome_head-IsHead (ground arith, ground arith, ground arith)
      (ground arith, ground arith, ground arith)
