-- ===== src/Core/Bouncer/Attrs.antt =====
-- What BouncerAdd writes is what ParseBouncerAttrs reads.
use stugan.Base.{
  ℕ, Bool, true, false, ◌≡◌, ◌≢◌, refl, subst, ap, sym, ◌∙◌, List, [], ◌∷◌, ◌++◌, Bytes, codes,
  ◌==◌, ◌≤◌, ◌<◌, str_eq, lt_i64, All, All-append, arith, append-nil, if◌then◌else◌, if_cases,
}
use stugan.Go.Strings.{is_empty, split}
use stugan.Go.Strings.Laws.{Lacks, before-append, behind-append}
use stugan.Go.Strings.Splitting.{split_word, split_first}
use stugan.Go.Space.{trim_space}
use stugan.Core.Bouncer.{
  BouncerNetwork, escaped, unescaped, escape_bouncer_value, unescape_bouncer_value, set_attr,
  read_attrs, only_id, parse_bouncer_attrs, attr, added_attrs,
}

unescape_plain :
    (x : ℕ) (s : Bytes)
    → (x == b'\\') ≡ false
    → unescape_bouncer_value (x ∷ s) ≡ x ∷ unescape_bouncer_value s
unfolding unescape_bouncer_value
unescape_plain x [] h = refl
unescape_plain x (y ∷ s) h = rw h refl

unescape-escaped :
    (x : ℕ) (s : Bytes) → unescape_bouncer_value (escaped x ++ s) ≡ x ∷ unescape_bouncer_value s
unfolding escaped unescaped unescape_bouncer_value
unescape-escaped x s = ground (arith, unescape_plain x s)

-- Unescaping undoes escaping, for every text.
pub unescape-escape : (s : Bytes) → unescape_bouncer_value (escape_bouncer_value s) ≡ s
unfolding escape_bouncer_value unescape_bouncer_value
unescape-escape [] = refl
unescape-escape (x ∷ s) =
    unescape-escaped x (escape_bouncer_value s) ∙ ap (λ t. x ∷ t) (unescape-escape s)

escaped-Lacks : (x : ℕ) → Lacks b';' (escaped x)
unfolding escaped
escaped-Lacks x =
    let P = Lacks b';' in
    if_cases P (x == b'\\') (λ _. ground arith)
      (λ _.
        if_cases P (x == b';') (λ _. ground arith)
          (λ h.
            if_cases P (x == b' ') (λ _. ground arith)
              (λ _.
                if_cases P (x == 13) (λ _. ground arith)
                  (λ _. if_cases P (x == 10) (λ _. ground arith) (λ _. (ground (arith, h), tt))))))

escape-Lacks : (s : Bytes) → Lacks b';' (escape_bouncer_value s)
unfolding escape_bouncer_value
escape-Lacks [] = tt
escape-Lacks (x ∷ s) =
    All-append (λ c. c ≢ b';') (escaped x) (escape_bouncer_value s) (escaped-Lacks x)
      (escape-Lacks s)

-- a key in which neither separator occurs
abbrev IsKey : Bytes → Type 0
IsKey k = Lacks b'=' k × Lacks b';' k

-- What follows an attribute: nothing, or a separator and more.
abbrev IsTail : Bytes → Type 0
IsTail [] = Unit
IsTail (c ∷ s) = c ≡ b';'

abbrev parts_of : Bytes → List Bytes
parts_of [] = []
parts_of (c ∷ s) = split s b';'

split-tail : (w t : Bytes) → Lacks b';' w → IsTail t → split (w ++ t) b';' ≡ w ∷ parts_of t
split-tail w [] h _ = ap (λ s. split s b';') (append-nil w) ∙ split_word b';' w h
split-tail w (c ∷ s) h e = ap (λ c. split (w ++ c ∷ s) b';') e ∙ split_first b';' w s h

-- A text without a backslash stands for itself.
unescape_none : (s : Bytes) → Lacks b'\\' s → unescape_bouncer_value s ≡ s
unfolding unescape_bouncer_value
unescape_none [] h = refl
unescape_none (x ∷ s) (h, hs) =
    unescape_plain x s (ground arith) ∙ ap (λ t. x ∷ t) (unescape_none s hs)

module _ (atoi : Bytes → ℕ) where
  -- A part that is a key and a text that stands for `v`.
  read-part :
      (b : BouncerNetwork) (k w v t : Bytes)
      → IsKey k
      → Lacks b';' w
      → unescape_bouncer_value w ≡ v
      → IsTail t
      → read_attrs atoi b (split ((k ++ b'=' ∷ w) ++ t) b';')
        ≡ read_attrs atoi (set_attr atoi b k v) (parts_of t)
  unfolding read_attrs
  read-part b k w v t (hk, hs) hw e ht =
      ap (read_attrs atoi b) (
        split-tail (k ++ b'=' ∷ w) t (All-append (λ c. c ≢ b';') k (b'=' ∷ w) hs (omega arith, hw))
          ht)
      ∙ rw (read_attrs, before-append b'=' k w hk, behind-append b'=' k w hk, e) refl

  read-escaped :
      (b : BouncerNetwork) (k v t : Bytes)
      → IsKey k
      → IsTail t
      → read_attrs atoi b (split ((k ++ b'=' ∷ escape_bouncer_value v) ++ t) b';')
        ≡ read_attrs atoi (set_attr atoi b k v) (parts_of t)
  read-escaped b k v t hk ht =
      read-part b k (escape_bouncer_value v) v t hk (escape-Lacks v) (unescape-escape v) ht

  read-attr :
      (b : BouncerNetwork) (k v t : Bytes)
      → IsKey k
      → IsTail t
      → read_attrs atoi b (parts_of (attr k v ++ t))
        ≡ read_attrs atoi (if is_empty v then b else set_attr atoi b k v) (parts_of t)
  unfolding attr
  read-attr b k [] t hk ht = refl
  read-attr b k (x ∷ v) t hk ht = read-escaped b k (x ∷ v) t hk ht

  -- an attribute that is written or not
  read-maybe :
      (c : Bool) (b : BouncerNetwork) (k w v t : Bytes)
      → IsKey k
      → (c ≡ true → Lacks b';' w)
      → (c ≡ true → unescape_bouncer_value w ≡ v)
      → IsTail t
      → read_attrs atoi b (parts_of ((if c then b';' ∷ (k ++ b'=' ∷ w) else []) ++ t))
        ≡ read_attrs atoi (if c then set_attr atoi b k v else b) (parts_of t)
  read-maybe true b k w v t hk hw e ht = read-part b k w v t hk (hw refl) (e refl) ht
  read-maybe false b k w v t hk hw e ht = refl

  read-tls :
      (c : Bool) (b : BouncerNetwork) (t : Bytes)
      → IsTail t
      → read_attrs atoi b (parts_of ((if c then codes ";tls=1" else codes ";tls=0") ++ t))
        ≡ read_attrs atoi (record b { tls = c }) (parts_of t)
  unfolding set_attr str_eq
  read-tls true b t ht =
      read-part b (codes "tls") (codes "1") (codes "1") t (ground arith) (ground arith)
        (unescape_none (codes "1") (ground arith)) ht
  read-tls false b t ht =
      read-part b (codes "tls") (codes "0") (codes "0") t (ground arith) (ground arith)
        (unescape_none (codes "0") (ground arith)) ht

attr-IsTail : (k v t : Bytes) → IsTail t → IsTail (attr k v ++ t)
unfolding attr
attr-IsTail k [] t h = h
attr-IsTail k (x ∷ v) t h = refl

-- What strconv promises of a positive number.
pub record IsDecimal (atoi : Bytes → ℕ) (itoa : ℕ → Bytes) : Type 0 where
  pub digits : (n : ℕ) → lt_i64 0 n ≡ true → All (λ c. (b'0' ≤ c) × (c ≤ b'9')) (itoa n)
  pub back : (n : ℕ) → lt_i64 0 n ≡ true → atoi (itoa n) ≡ n

digits-Lacks : (c : ℕ) (s : Bytes) → b'9' < c → All (λ c. (b'0' ≤ c) × (c ≤ b'9')) s → Lacks c s
digits-Lacks c [] h _ = tt
digits-Lacks c (x ∷ s) h (d, ds) = (omega (arith, h, d), digits-Lacks c s h ds)

-- A field that is left out is the empty one.
named :
    (b : BouncerNetwork) (n : Bytes)
    → (if is_empty n then record b { name = [] } else record b { name = n }) ≡ record b { name = n }
named b [] = refl
named b (x ∷ n) = refl

nicked :
    (b : BouncerNetwork) (n : Bytes)
    → (if is_empty n then record b { nick = [] } else record b { nick = n }) ≡ record b { nick = n }
nicked b [] = refl
nicked b (x ∷ n) = refl

ported :
    (b : BouncerNetwork) (c : Bool) (p q : ℕ)
    → (c ≡ true → p ≡ q)
    → (if c then record b { port = p } else record b { port = 0 })
      ≡ record b { port = if c then q else 0 }
ported b true p q e = ap (λ p. record b { port = p }) (e refl)
ported b false p q e = refl

any_pass : (b : BouncerNetwork) (v : Bytes) → (if is_empty v then b else b) ≡ b
any_pass b [] = refl
any_pass b (x ∷ v) = refl

-- The bouncer reads what is written: the host, the name and the nick without the space around them, the
-- port if it is positive, and whether TLS is used; the password is no attribute of a network.
pub parse-added :
    (atoi : Bytes → ℕ) (itoa : ℕ → Bytes) (id : Bytes) (b : BouncerNetwork) (pass : Bytes)
    → IsDecimal atoi itoa
    → (parse_bouncer_attrs atoi id (added_attrs itoa b pass)).0 ≡ record {
      id = id;
      name = trim_space b.name;
      host = trim_space b.host;
      port = if lt_i64 0 b.port then b.port else 0;
      tls = b.tls;
      nick = trim_space b.nick;
      state = [];
      error = [];
    }
unfolding parse_bouncer_attrs added_attrs set_attr str_eq read_attrs
parse-added atoi itoa id b pass d =
    let positive = lt_i64 0 b.port in
    let pass_part = attr (codes "pass") pass in
    let nick_part = attr (codes "nickname") (trim_space b.nick) ++ pass_part in
    let tls_part = (if b.tls then codes ";tls=1" else codes ";tls=0") ++ nick_part in
    let port_part = (if positive then codes ";port=" ++ itoa b.port else []) ++ tls_part in
    let hosted = record (only_id id) { host = trim_space b.host } in
    let with_name = record hosted { name = trim_space b.name } in
    let with_port = record with_name { port = if positive then b.port else 0 } in
    let with_tls = record with_port { tls = b.tls } in
    let whole = record with_tls { nick = trim_space b.nick } in
    let pass_tail : IsTail pass_part =
      subst IsTail (append-nil pass_part) (attr-IsTail (codes "pass") pass [] tt) in
    let nick_tail : IsTail nick_part =
      attr-IsTail (codes "nickname") (trim_space b.nick) pass_part pass_tail in
    let tls_tail : IsTail tls_part =
      if_cases (λ w. IsTail (w ++ nick_part)) b.tls (λ _. refl) (λ _. refl) in
    let port_tail : IsTail port_part =
      if_cases (λ w. IsTail (w ++ tls_part)) positive (λ _. refl) (λ _. tls_tail) in
    read-escaped atoi (only_id id) (codes "host") (trim_space b.host)
      (attr (codes "name") (trim_space b.name) ++ port_part) (ground arith)
      (attr-IsTail (codes "name") (trim_space b.name) port_part port_tail)
    ∙ read-attr atoi hosted (codes "name") (trim_space b.name) port_part (ground arith) port_tail
    ∙ ap (λ b. read_attrs atoi b (parts_of port_part)) (named hosted (trim_space b.name))
    ∙ read-maybe atoi positive with_name (codes "port") (itoa b.port) (itoa b.port) tls_part
        (ground arith) (λ h. digits-Lacks b';' (itoa b.port) (omega arith) (d.digits b.port h))
        (λ h.
          unescape_none (itoa b.port)
            (digits-Lacks b'\\' (itoa b.port) (omega arith) (d.digits b.port h)))
        tls_tail
    ∙ ap (λ b. read_attrs atoi b (parts_of tls_part))
        (ported with_name positive (atoi (itoa b.port)) b.port (d.back b.port))
    ∙ read-tls atoi b.tls with_port nick_part nick_tail
    ∙ read-attr atoi with_tls (codes "nickname") (trim_space b.nick) pass_part (ground arith)
        pass_tail
    ∙ ap (λ b. read_attrs atoi b (parts_of pass_part)) (nicked with_tls (trim_space b.nick))
    ∙ ap (λ w. read_attrs atoi whole (parts_of w)) (sym (append-nil pass_part))
    ∙ read-attr atoi whole (codes "pass") pass [] (ground arith) tt
    ∙ any_pass whole pass
