-- ===== src/Engine/IrcLine/Rewrite.antt =====
-- Rewriting the target of a recorded welcome line, and parsing the line that comes of it.
use mathlib.Core.Option
use stugan.Base.{ℕ, ◌≡◌, ◌≢◌, ap, sym, some, [], ◌∷◌, ◌++◌, Bytes, arith, append-nil}
use stugan.Go.Strings.Laws.{Lacks, StartsOff, before-append, behind-append, contains_byte-append}
use stugan.Engine.IrcLine.Params.{params_of-word, params_of-one, params_of-nil}
use stugan.Engine.IrcLine.Spaced.{
  section, Head, IsHead, spaced, cut_section-section, not_marked, source_starts, StartsOff-append,
  parse_line-spaced,
}
use stugan.Engine.IrcLine.{
  IrcLine, parse_line, params_of, cut_section, following, replace_first, rewritten, rewrite_target,
}

cut_section-spaced :
    (mark : ℕ) (s rest : Bytes)
    → mark ≢ b' '
    → Lacks b' ' s
    → StartsOff mark rest
    → cut_section mark (section mark s ++ rest) ≡ some (section mark s, rest)
unfolding cut_section
cut_section-spaced mark [] rest ne h off = rw (not_marked mark rest off)
cut_section-spaced mark (c ∷ s) rest ne h off = cut_section-section mark c s rest ne h

replace_first-spaced :
    (nick cmd first more : Bytes)
    → Lacks b' ' cmd
    → Lacks b' ' first
    → StartsOff b':' first
    → replace_first nick (cmd ++ b' ' ∷ (first ++ b' ' ∷ more))
      ≡ some (cmd ++ b' ' ∷ (nick ++ following more))
unfolding replace_first
replace_first-spaced nick cmd [] more hc hf off = absurd off
replace_first-spaced nick cmd (x ∷ s) more hc hf off =
    let args = x ∷ (s ++ b' ' ∷ more) in
    rw (contains_byte-append b' ' cmd args) (
      rw (behind-append b' ' cmd args hc, replace_first)
        (rw (before-append b' ' cmd args hc)
          (rw (behind-append b' ' (x ∷ s) more hf) (ground arith))))

rewritten-spaced :
    (w : Head) (nick first more : Bytes)
    → IsHead w
    → Lacks b' ' first
    → StartsOff b':' first
    → rewritten (spaced w (first ++ b' ' ∷ more)) nick ≡ some (spaced w (nick ++ following more))
unfolding rewritten
rewritten-spaced w nick first more h hf off =
    let args = first ++ b' ' ∷ more in
    let rest = w.cmd ++ b' ' ∷ args in
    let body = section b':' w.source ++ rest in
    let tag = source_starts b'@' w.source w.cmd args (omega arith) h.cmd_tag in
    let colon = StartsOff-append b':' w.cmd (b' ' ∷ args) h.cmd_source in
    rw (cut_section-spaced b'@' w.tags body (omega arith) h.tags_lack tag, rewritten)
      (rw (cut_section-spaced b':' w.source rest (omega arith) h.source_lacks colon)
        (rw (replace_first-spaced nick w.cmd first more h.cmd_lacks hf off)))

rewrite_target-spaced :
    (w : Head) (nick first more : Bytes)
    → IsHead w
    → Lacks b' ' first
    → StartsOff b':' first
    → rewrite_target (spaced w (first ++ b' ' ∷ more)) nick ≡ spaced w (nick ++ following more)
unfolding rewrite_target
rewrite_target-spaced w nick first more h hf off =
    rw (rewritten-spaced w nick first more h hf off, rewrite_target)

params_of-following :
    (p more : Bytes)
    → Lacks b' ' p
    → StartsOff b' ' p
    → StartsOff b':' p
    → params_of (p ++ following more) ≡ p ∷ params_of more
params_of-following p [] h space colon =
    rw (append-nil p, params_of-one p h space colon) (ap (◌∷◌ p) (sym params_of-nil))
params_of-following p (d ∷ s) h space colon = params_of-word p (d ∷ s) h space colon

-- a line addressed to `nick`
abbrev pub addressed : Bytes → IrcLine → IrcLine
addressed nick l = record l { params = elim l.params [ [] ↦ [] | _ ∷ ps ↦ nick ∷ ps ] }

-- Rewriting the target of a line whose parts are one space apart, and that has a first parameter
-- and text behind it, gives a line that parses to the same source, command and other parameters,
-- with the nick as its first parameter.
pub parse_line-rewrite_target :
    (unicode : Bytes → Bytes) (w : Head) (nick first more : Bytes)
    → IsHead w
    → Lacks b' ' first × StartsOff b' ' first × StartsOff b':' first
    → Lacks b' ' nick × StartsOff b' ' nick × StartsOff b':' nick
    → parse_line unicode (rewrite_target (spaced w (first ++ b' ' ∷ more)) nick)
      ≡ Option.map (addressed nick) (parse_line unicode (spaced w (first ++ b' ' ∷ more)))
parse_line-rewrite_target unicode w nick first more h f n =
    let more_of = params_of-word first more f.0 f.1 f.2 in
    rw (rewrite_target-spaced w nick first more h f.0 f.2) (
      rw (parse_line-spaced unicode w (nick ++ following more) h) (
        rw (parse_line-spaced unicode w (first ++ b' ' ∷ more) h)
          (rw (more_of, params_of-following nick more n.0 n.1 n.2))))
