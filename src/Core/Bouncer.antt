-- ===== src/Core/Bouncer.antt =====
-- internal/core/bouncer.go: the networks that a bouncer (soju) manages, and their attributes.
-- `atoi` and `itoa` are strconv's, on the bit pattern of an int64.
pub mod Attrs
pub mod Merged
pub mod Listed
pub mod Commands
mod Examples
use stugan.Base.{
  ℕ, Bool, true, false, not, ◌&&◌, Option, none, some, List, [], ◌∷◌, ◌++◌, Bytes, codes, map, ◌==◌,
  str_eq, lt_i64, if◌then◌else◌,
}
use stugan.Go.Strings.{is_empty, before, behind, split}
use stugan.Go.Space.{trim_space}

abbrev pub cap_bouncer_networks : Bytes
cap_bouncer_networks = codes "soju.im/bouncer-networks"

pub record BouncerNetwork : Type 0 where
  pub id : Bytes
  pub name : Bytes
  pub host : Bytes
  pub port : ℕ
  pub tls : Bool
  pub nick : Bytes
  pub state : Bytes
  pub error : Bytes

-- What `\` and this byte stand for.
unfoldable pub unescaped : ℕ → Option ℕ
unescaped c =
    if c == b':'
    then some b';'
    else if c == b's'
    then some b' '
    else if c == b'\\'
    then some b'\\'
    else if c == b'r'
    then some 13
    else if c == b'n'
    then some 10
    else none

-- `unescapeBouncerValue`
unfoldable pub unescape_bouncer_value : Bytes → Bytes
unfolding unescaped
unescape_bouncer_value [] = []
unescape_bouncer_value (x ∷ []) = x ∷ []
unescape_bouncer_value (x ∷ (y ∷ s)) =
    let plain = x ∷ unescape_bouncer_value (y ∷ s) in
    let rest = unescape_bouncer_value s in
    if x == b'\\' then (elim (unescaped y) [ some c ↦ c ∷ rest | none ↦ plain ]) else plain

unfoldable pub escaped : ℕ → Bytes
escaped c =
    if c == b'\\'
    then codes "\\\\"
    else if c == b';'
    then codes "\\:"
    else if c == b' '
    then codes "\\s"
    else if c == 13
    then codes "\\r"
    else if c == 10
    then codes "\\n"
    else c ∷ []

-- `escapeBouncerValue`
unfoldable pub escape_bouncer_value : Bytes → Bytes
unfolding escaped
escape_bouncer_value [] = []
escape_bouncer_value (x ∷ s) = escaped x ++ escape_bouncer_value s

-- one attribute of a BOUNCER NETWORK line
unfoldable pub set_attr : (Bytes → ℕ) → BouncerNetwork → Bytes → Bytes → BouncerNetwork
set_attr atoi b k v =
    if str_eq k (codes "name")
    then record b { name = v }
    else if str_eq k (codes "host")
    then record b { host = v }
    else if str_eq k (codes "port")
    then record b { port = atoi v }
    else if str_eq k (codes "tls")
    then record b { tls = str_eq v (codes "1") }
    else if str_eq k (codes "nickname")
    then record b { nick = v }
    else if str_eq k (codes "state")
    then record b { state = v }
    else if str_eq k (codes "error")
    then record b { error = v }
    else b

-- The loop of `ParseBouncerAttrs` over the parts.
unfoldable pub read_attrs : (Bytes → ℕ) → BouncerNetwork → List Bytes → BouncerNetwork
read_attrs atoi b [] = b
read_attrs atoi b (kv ∷ kvs) =
    read_attrs atoi (set_attr atoi b (before kv b'=') (unescape_bouncer_value (behind kv b'='))) kvs

abbrev pub only_id : Bytes → BouncerNetwork
only_id id = record {
  id = id;
  name = [];
  host = [];
  port = 0;
  tls = false;
  nick = [];
  state = [];
  error = [];
}

-- `ParseBouncerAttrs`
unfoldable pub parse_bouncer_attrs : (Bytes → ℕ) → Bytes → Bytes → BouncerNetwork × List Bytes
parse_bouncer_attrs atoi id attrs =
    (read_attrs atoi (only_id id) (split attrs b';'), map (λ kv. before kv b'=') (split attrs b';'))

unfoldable pub merge_attr : BouncerNetwork → BouncerNetwork → Bytes → BouncerNetwork
merge_attr old patch k =
    if str_eq k (codes "name")
    then record old { name = patch.name }
    else if str_eq k (codes "host")
    then record old { host = patch.host }
    else if str_eq k (codes "port")
    then record old { port = patch.port }
    else if str_eq k (codes "tls")
    then record old { tls = patch.tls }
    else if str_eq k (codes "nickname")
    then record old { nick = patch.nick }
    else if str_eq k (codes "state")
    then record old { state = patch.state }
    else if str_eq k (codes "error")
    then record old { error = patch.error }
    else old

-- `MergeBouncerAttrs`
unfoldable pub merge_bouncer_attrs : BouncerNetwork → BouncerNetwork → List Bytes → BouncerNetwork
merge_bouncer_attrs old patch [] = old
merge_bouncer_attrs old patch (k ∷ ks) = merge_bouncer_attrs (merge_attr old patch k) patch ks

-- The function `attr` of `BouncerAdd`.
unfoldable pub attr : Bytes → Bytes → Bytes
attr k v = if is_empty v then [] else b';' ∷ (k ++ (b'=' ∷ escape_bouncer_value v))

-- The attributes that `BouncerAdd` sends.
unfoldable pub added_attrs : (ℕ → Bytes) → BouncerNetwork → Bytes → Bytes
unfolding attr
added_attrs itoa b pass =
    codes "host="
    ++ (escape_bouncer_value (trim_space b.host)
        ++ (attr (codes "name") (trim_space b.name)
            ++ ((if lt_i64 0 b.port then codes ";port=" ++ itoa b.port else [])
                ++ ((if b.tls then codes ";tls=1" else codes ";tls=0")
                    ++ (attr (codes "nickname") (trim_space b.nick) ++ attr (codes "pass") pass)))))

-- The networks after a record of one that is listed (its attributes merged, or as a whole where
-- `keys` is nil); `none` if it is not listed.
unfoldable pub update_bouncer :
    BouncerNetwork → Option (List Bytes) → List BouncerNetwork → Option (List BouncerNetwork)
update_bouncer b keys [] = none
update_bouncer b keys (old ∷ bs) =
    let rest = update_bouncer b keys bs in
    if str_eq old.id b.id
    then some (elim keys [ none ↦ b | some ks ↦ merge_bouncer_attrs old b ks ] ∷ bs)
    else elim rest [ none ↦ none | some bs' ↦ some (old ∷ bs') ]

unfoldable pub delete_bouncer : Bytes → List BouncerNetwork → List BouncerNetwork
delete_bouncer id [] = []
delete_bouncer id (b ∷ bs) =
    let rest = delete_bouncer id bs in if str_eq b.id id then rest else b ∷ rest

-- `EvBouncerNetwork` in `apply` (engine.go): a record, the end of one, or of all
unfoldable pub apply_bouncer :
    List BouncerNetwork → Option BouncerNetwork → Option (List Bytes) → Bytes → List BouncerNetwork
apply_bouncer bs (some b) keys target = elim (update_bouncer b keys bs) [
  | some bs' ↦ bs'
  | none ↦ bs ++ b ∷ []
]
apply_bouncer bs none keys target = if is_empty target then [] else delete_bouncer target bs

-- the first network with this id
abbrev pub find_bouncer : Bytes → List BouncerNetwork → Option BouncerNetwork
find_bouncer id [] = none
find_bouncer id (b ∷ bs) = let rest = find_bouncer id bs in if str_eq b.id id then some b else rest
