-- ===== src/Engine/IrcLine/Spaced.antt =====
-- Lines whose parts are one space apart, as servers send them, and how they are parsed.
use stugan.Base.{
  ℕ, ◌+◌, ◌≡◌, ◌≢◌, ap, ◌∙◌, false, some, [], ◌∷◌, ◌++◌, Bytes, arith, length, append_assoc, take,
  drop,
}
use stugan.Go.Strings.{index_either, starts_with_byte, trim_left, to_upper}
use stugan.Go.Strings.Laws.{
  Lacks, StartsOff, index_byte-append, before-append, behind-append, take-append, take-append_past,
  drop-append_past,
}
use stugan.Engine.IrcLine.{
  parse_line, params_of, source_nick, skip_tags, take_source, section_of, command_of, cut_section,
}

-- An optional section: nothing, or the mark, at least one byte other than a space, and a space.
abbrev pub section : ℕ → Bytes → Bytes
section mark [] = []
section mark (c ∷ s) = mark ∷ (c ∷ s ++ b' ' ∷ [])

section-append :
    (mark c : ℕ) (s rest : Bytes) → section mark (c ∷ s) ++ rest ≡ (mark ∷ (c ∷ s)) ++ b' ' ∷ rest
section-append mark c s rest = ap (λ t. mark ∷ (c ∷ t)) (append_assoc s (b' ' ∷ []) rest)

trimmed_rest : (rest : Bytes) → StartsOff b' ' rest → trim_left rest b' ' ≡ rest
unfolding trim_left
trimmed_rest [] off = absurd off
trimmed_rest (x ∷ s) off = ground arith

-- What stands between the mark and the space, and the text behind.
pub section_of-section :
    (mark c : ℕ) (s rest : Bytes)
    → mark ≢ b' '
    → Lacks b' ' (c ∷ s)
    → StartsOff b' ' rest
    → section_of (section mark (c ∷ s) ++ rest) ≡ some (c ∷ s, rest)
unfolding section_of
section_of-section mark c s rest ne h off =
    let p = mark ∷ (c ∷ s) in
    let past : trim_left (drop (length p + 1) (p ++ b' ' ∷ rest)) b' ' ≡ rest =
      ap (λ t. trim_left t b' ') (drop-append_past p b' ' rest) ∙ trimmed_rest rest off in
    let inner : drop 1 (take (length p) (p ++ b' ' ∷ rest)) ≡ c ∷ s =
      ap (drop 1) (take-append p (b' ' ∷ rest)) in
    rw (section-append mark c s rest)
      (rw (index_byte-append b' ' p rest (ne, h), section_of) (ground (arith, past, inner)))

pub cut_section-section :
    (mark c : ℕ) (s rest : Bytes)
    → mark ≢ b' '
    → Lacks b' ' (c ∷ s)
    → cut_section mark (section mark (c ∷ s) ++ rest) ≡ some (section mark (c ∷ s), rest)
unfolding cut_section starts_with_byte
cut_section-section mark c s rest ne h =
    let p = mark ∷ (c ∷ s) in
    rw (section-append mark c s rest) (
      rw (index_byte-append b' ' p rest (ne, h))
        (ground (arith, take-append_past p b' ' rest, drop-append_past p b' ' rest)))

-- The three parts of a spaced line that come before its parameters.
pub record Head : Type 0 where
  pub tags : Bytes
  pub source : Bytes
  pub cmd : Bytes

pub record IsHead (w : Head) : Type 0 where
  pub tags_lack : Lacks b' ' w.tags
  pub source_lacks : Lacks b' ' w.source
  pub cmd_lacks : Lacks b' ' w.cmd
  pub cmd_space : StartsOff b' ' w.cmd
  pub cmd_tag : StartsOff b'@' w.cmd
  pub cmd_source : StartsOff b':' w.cmd

-- the line with these parts and the text `args` behind the command
abbrev pub spaced : Head → Bytes → Bytes
spaced w args = section b'@' w.tags ++ (section b':' w.source ++ (w.cmd ++ b' ' ∷ args))

pub StartsOff-append : (c : ℕ) (s r : Bytes) → StartsOff c s → StartsOff c (s ++ r)
StartsOff-append c [] r h = absurd h
StartsOff-append c (x ∷ s) r h = h

-- Behind the tags a spaced line starts neither with a space nor with `@`.
pub source_starts :
    (c : ℕ) (source cmd : Bytes) (args : Bytes)
    → b':' ≢ c
    → StartsOff c cmd
    → StartsOff c (section b':' source ++ (cmd ++ b' ' ∷ args))
source_starts c [] cmd args ne h = StartsOff-append c cmd (b' ' ∷ args) h
source_starts c (x ∷ s) cmd args ne h = ne

pub not_marked : (c : ℕ) (s : Bytes) → StartsOff c s → starts_with_byte s c ≡ false
unfolding starts_with_byte
not_marked c [] h = absurd h
not_marked c (x ∷ s) h = ground arith

skip_tags-spaced :
    (tags rest : Bytes)
    → Lacks b' ' tags
    → StartsOff b' ' rest
    → StartsOff b'@' rest
    → skip_tags (section b'@' tags ++ rest) ≡ some rest
unfolding skip_tags
skip_tags-spaced [] rest h space tag = rw (not_marked b'@' rest tag)
skip_tags-spaced (c ∷ s) rest h space tag =
    unfold starts_with_byte in rw (section_of-section b'@' c s rest (omega arith) h space)

take_source-spaced :
    (source rest : Bytes)
    → Lacks b' ' source
    → StartsOff b' ' rest
    → StartsOff b':' rest
    → take_source (section b':' source ++ rest) ≡ some (source_nick source, rest)
unfolding take_source
take_source-spaced [] rest h space colon =
    unfold source_nick index_either in rw (not_marked b':' rest colon)
take_source-spaced (c ∷ s) rest h space colon =
    unfold starts_with_byte in rw (section_of-section b':' c s rest (omega arith) h space)

command_of-spaced :
    (unicode : Bytes → Bytes) (nick cmd args : Bytes)
    → Lacks b' ' cmd
    → StartsOff b' ' cmd
    → command_of unicode nick (cmd ++ b' ' ∷ args)
      ≡ some (record { nick = nick; cmd = to_upper unicode cmd; params = params_of args })
unfolding command_of
command_of-spaced unicode nick [] args h off = absurd off
command_of-spaced unicode nick (c ∷ s) args h off =
    rw (before-append b' ' (c ∷ s) args h, behind-append b' ' (c ∷ s) args h)

-- A spaced line is parsed to its parts.
pub parse_line-spaced :
    (unicode : Bytes → Bytes) (w : Head) (args : Bytes)
    → IsHead w
    → parse_line unicode (spaced w args)
      ≡ some (record {
        nick = source_nick w.source;
        cmd = to_upper unicode w.cmd;
        params = params_of args;
      })
unfolding parse_line
parse_line-spaced unicode w args h =
    let rest = w.cmd ++ b' ' ∷ args in
    let body = section b':' w.source ++ rest in
    let space = source_starts b' ' w.source w.cmd args (omega arith) h.cmd_space in
    let tag = source_starts b'@' w.source w.cmd args (omega arith) h.cmd_tag in
    rw (skip_tags-spaced w.tags body h.tags_lack space tag) (
      rw
        (take_source-spaced w.source rest h.source_lacks
          (StartsOff-append b' ' w.cmd (b' ' ∷ args) h.cmd_space)
          (StartsOff-append b':' w.cmd (b' ' ∷ args) h.cmd_source))
        (command_of-spaced unicode (source_nick w.source) w.cmd args h.cmd_lacks h.cmd_space))
