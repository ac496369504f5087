-- ===== src/IrcServer/Login.antt =====
-- internal/ircserver/parse.go: logins and credentials.
pub mod Bound
use stugan.Base.{
  ℕ, ◌+◌, Bool, true, false, ◌&&◌, Option, none, some, [], ◌∷◌, Bytes, ltb, ◌==◌, if◌then◌else◌,
  take, drop, get_elem?,
}
use stugan.Go.Strings.{index_byte, index_either, last_index_byte}
use stugan.Go.Space.{trim_space}

pub record ParsedLogin : Type 0 where
  pub username : Bytes
  pub network : Bytes
  pub client : Bytes

no_login : ParsedLogin
no_login = record { username = []; network = []; client = [] }

-- the byte at `i`
at_byte : Bytes → ℕ → ℕ
at_byte s i = elim (get_elem? s i) [ some c ↦ c | none ↦ 0 ]

-- `max(lastSlash, lastAt)`, where `none` is -1
later : Option ℕ → Option ℕ → Option ℕ
later none j = j
later (some i) none = some i
later (some i) (some j) = if ltb i j then some j else some i

-- `raw[a+1 : b]`
between : Bytes → ℕ → ℕ → Bytes
between s a b = drop (a + 1) (take b s)

-- a part behind a separator: the client behind `@`, the network behind `/`
take_part : Bytes → ℕ → Bytes → ParsedLogin → ParsedLogin
unfolding at_byte
take_part raw i part l =
    if at_byte raw i == b'@' then record l { client = part } else record l { network = part }

-- `UnmarshalLogin` of a text that is trimmed and not empty
split_login : Bytes → ParsedLogin
unfolding later between take_part
split_login raw = elim (index_either raw b'/' b'@') [
  | none ↦ record { username = raw; network = []; client = [] }
  | some i ↦
      let named : ParsedLogin = record { username = take i raw; network = []; client = [] } in
      elim (later (last_index_byte raw b'/') (last_index_byte raw b'@')) [
        | none ↦ named
        | some j ↦
            let ended = take_part raw j (drop (j + 1) raw) named in
            if ltb i j then take_part raw i (between raw i j) ended else ended
      ]
]

unfoldable pub unmarshal_login : Bytes → ParsedLogin
unfolding split_login no_login
unmarshal_login raw = elim (trim_space raw) [ [] ↦ no_login | c ∷ s ↦ split_login (c ∷ s) ]

pub record ParsedCredentials : Type 0 where
  pub username : Bytes
  pub secret : Bytes
  pub network : Bytes

-- `PASS user[/network]:secret`: the text before the first colon and the one behind it; without a
-- colon all of it is the secret.
split_pass : Bytes → Bytes × Bytes
split_pass pass_raw = elim (index_byte pass_raw b':') [
  | some i ↦ (take i pass_raw, drop (i + 1) pass_raw)
  | none ↦ ([], pass_raw)
]

-- the first text, or the second if it is empty
or_else : Bytes → Bytes → Bytes
or_else [] t = t
or_else (c ∷ s) t = c ∷ s

is_nothing : Bytes → Bool
is_nothing [] = true
is_nothing (c ∷ s) = false

-- `ParseCredentials`
unfoldable pub parse_credentials : Bytes → Bytes → Option ParsedCredentials
unfolding split_pass or_else is_nothing
parse_credentials pass_raw user_field =
    let (login_part, secret) = split_pass pass_raw in
    let parsed = unmarshal_login (or_else login_part user_field) in
    let network = or_else parsed.network (unmarshal_login user_field).network in
    if is_nothing parsed.username && is_nothing secret
    then none
    else some (record { username = parsed.username; secret = secret; network = network })
