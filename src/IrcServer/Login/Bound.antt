-- ===== src/IrcServer/Login/Bound.antt =====
-- The login that internal/core/bouncer.go makes for a bouncer's network, read by the login parser.
use stugan.Base.{
  ℕ, ◌+◌, true, false, Option, none, some, ◌≡◌, ◌≢◌, refl, subst, ap, ◌∙◌, [], ◌∷◌, ◌++◌, Bytes,
  All-append, append_assoc, append-nil, arith, take, drop, length, length-append, ltb,
}
use stugan.Go.Strings.{index_byte, index_either, last_index_byte}
use stugan.Go.Strings.Laws.{Lacks, index_byte-append, take-append, drop-append, drop-append_past}
use stugan.Go.Space.{trim_space}
use stugan.Core.Bouncer.Commands.{bound_login, split_client, without_network}
use stugan.IrcServer.Login.{unmarshal_login, split_login, later, between, take_part, at_byte}

-- No separator of a login is in the text.
abbrev pub IsWord : Bytes → Type 0
IsWord s = Lacks b'/' s × Lacks b'@' s

-- the client of a login, with its separator
abbrev pub client_text : Option Bytes → Bytes
client_text none = []
client_text (some c) = b'@' ∷ c

abbrev pub client_of : Option Bytes → Bytes
client_of none = []
client_of (some c) = c

index_byte-none : (c : ℕ) (s : Bytes) → Lacks c s → index_byte s c ≡ none
unfolding index_byte
index_byte-none c [] h = refl
index_byte-none c (x ∷ s) (h, hs) = ground (arith, index_byte-none c s hs)

last_index_byte-none : (c : ℕ) (s : Bytes) → Lacks c s → last_index_byte s c ≡ none
unfolding last_index_byte
last_index_byte-none c [] h = refl
last_index_byte-none c (x ∷ s) (h, hs) = ground (arith, last_index_byte-none c s hs)

last_index_byte-append :
    (c : ℕ) (p r : Bytes) → Lacks c r → last_index_byte (p ++ c ∷ r) c ≡ some (length p)
unfolding last_index_byte
last_index_byte-append c [] r h = rw (last_index_byte-none c r h) (ground arith)
last_index_byte-append c (x ∷ p) r h = rw (last_index_byte-append c p r h) refl

index_either-append :
    (p r : Bytes) → IsWord p → index_either (p ++ b'/' ∷ r) b'/' b'@' ≡ some (length p)
unfolding index_either
index_either-append [] r h = refl
index_either-append (x ∷ p) r ((h, hs), (k, ks)) = ground (arith, index_either-append p r (hs, ks))

at_byte-append : (p : Bytes) (c : ℕ) (r : Bytes) → at_byte (p ++ c ∷ r) (length p) ≡ c
unfolding at_byte
at_byte-append [] c r = refl
at_byte-append (x ∷ p) c r = at_byte-append p c r

split_client-word : (base : Bytes) → Lacks b'@' base → split_client base ≡ (base, [])
unfolding split_client
split_client-word base h = rw (split_client, index_byte-none b'@' base h) refl

split_client-append :
    (base c : Bytes) → Lacks b'@' base → split_client (base ++ b'@' ∷ c) ≡ (base, b'@' ∷ c)
unfolding split_client
split_client-append base c h =
    rw
      (
        split_client,
        index_byte-append b'@' base c h,
        take-append base (b'@' ∷ c),
        drop-append base (b'@' ∷ c),
      )
      refl

without_network-word : (base : Bytes) → Lacks b'/' base → without_network base ≡ base
unfolding without_network
without_network-word base h = rw (without_network, index_byte-none b'/' base h) refl

-- The client is kept.
bound_login-append :
    (base : Bytes) (o : Option Bytes) (name : Bytes)
    → IsWord base
    → bound_login (base ++ client_text o) name ≡ base ++ (b'/' ∷ (name ++ client_text o))
unfolding bound_login
bound_login-append base o name (h, k) =
    ap (λ (r : Bytes × Bytes). without_network r.0 ++ (b'/' ∷ (name ++ r.1))) (parted o)
    ∙ ap (λ b. b ++ (b'/' ∷ (name ++ client_text o))) (without_network-word base h)
  where
    parted : (o : Option Bytes) → split_client (base ++ client_text o) ≡ (base, client_text o)
    parted none = ap split_client (append-nil base) ∙ split_client-word base k
    parted (some c) = split_client-append base c k

trimmed :
    (x : ℕ) (s : Bytes) → trim_space (x ∷ s) ≡ x ∷ s → unmarshal_login (x ∷ s) ≡ split_login (x ∷ s)
unfolding unmarshal_login
trimmed x s h = rw (unmarshal_login, h) refl

-- a text with a byte in it is not empty
unmarshal-split :
    (base : Bytes) (c : ℕ) (r : Bytes)
    → trim_space (base ++ c ∷ r) ≡ base ++ c ∷ r
    → unmarshal_login (base ++ c ∷ r) ≡ split_login (base ++ c ∷ r)
unmarshal-split [] c r h = trimmed c r h
unmarshal-split (x ∷ base) c r h = trimmed x (base ++ c ∷ r) h

Lacks-append : (c x : ℕ) (p r : Bytes) → x ≢ c → Lacks c p → Lacks c r → Lacks c (p ++ x ∷ r)
Lacks-append c x p r ne hp hr = All-append (λ b. b ≢ c) p (x ∷ r) hp (ne, hr)

ltb_irrefl : (n : ℕ) → ltb n n ≡ false
ltb_irrefl n = ground arith

split-named :
    (base name : Bytes)
    → IsWord base
    → IsWord name
    → split_login (base ++ b'/' ∷ name) ≡ record { username = base; network = name; client = [] }
unfolding split_login later take_part
split-named base name hb hn =
    rw
      (
        split_login,
        index_either-append base name hb,
        last_index_byte-append b'/' base name hn.0,
        last_index_byte-none b'@' (base ++ b'/' ∷ name)
            (Lacks-append b'@' b'/' base name (omega arith) hb.1 hn.1),
      )
      (rw
        (
          ltb_irrefl (length base),
          take_part,
          at_byte-append base b'/' name,
          drop-append_past base b'/' name,
          take-append base (b'/' ∷ name),
        )
        refl)

split-client :
    (base name c : Bytes)
    → IsWord base
    → IsWord name
    → IsWord c
    → split_login (base ++ (b'/' ∷ (name ++ b'@' ∷ c)))
      ≡ record { username = base; network = name; client = c }
unfolding split_login later take_part between
split-client base name c hb hn hc =
    let pre = base ++ b'/' ∷ name in
    let rest = name ++ b'@' ∷ c in
    let raw = base ++ b'/' ∷ rest in
    let e : pre ++ b'@' ∷ c ≡ raw = append_assoc base (b'/' ∷ name) (b'@' ∷ c) in
    let slash : last_index_byte raw b'/' ≡ some (length base) =
      last_index_byte-append b'/' base rest
        (Lacks-append b'/' b'@' name c (omega arith) hn.0 hc.0) in
    let at : last_index_byte raw b'@' ≡ some (length pre) =
      subst (λ s. last_index_byte s b'@' ≡ some (length pre)) e
        (last_index_byte-append b'@' pre c hc.1) in
    let longer : ltb (length base) (length pre) ≡ true =
      ground (arith, length-append base (b'/' ∷ name)) in
    let is_at : at_byte raw (length pre) ≡ b'@' =
      subst (λ s. at_byte s (length pre) ≡ b'@') e (at_byte-append pre b'@' c) in
    let behind_at : drop (length pre + 1) raw ≡ c =
      subst (λ s. drop (length pre + 1) s ≡ c) e (drop-append_past pre b'@' c) in
    let up_to : take (length pre) raw ≡ pre =
      subst (λ s. take (length pre) s ≡ pre) e (take-append pre (b'@' ∷ c)) in
    let amid : between raw (length base) (length pre) ≡ name =
      ap (drop (length base + 1)) up_to ∙ drop-append_past base b'/' name in
    rw (split_login, index_either-append base rest hb, slash, at, longer)
      (rw
        (
          longer,
          take_part,
          is_at,
          behind_at,
          at_byte-append base b'/' rest,
          amid,
          take-append base (b'/' ∷ rest),
        )
        refl)

-- A login `user` or `user@client` at a bouncer becomes, for a network of it, a login that stugan's own bouncer
-- would read as that user, that network and that client: provided that no part has a separator in it and
-- there is no space around the login.
pub unmarshal_login-bound_login :
    (base : Bytes) (o : Option Bytes) (name : Bytes)
    → IsWord base
    → IsWord name
    → IsWord (client_of o)
    → trim_space (bound_login (base ++ client_text o) name)
      ≡ bound_login (base ++ client_text o) name
    → unmarshal_login (bound_login (base ++ client_text o) name)
      ≡ record { username = base; network = name; client = client_of o }
unmarshal_login-bound_login base o name hb hn hc h =
    let e = bound_login-append base o name hb in
    ap unmarshal_login e
    ∙ unmarshal-split base b'/' (name ++ client_text o) (subst (λ s. trim_space s ≡ s) e h)
    ∙ parsed o hc
  where
    parsed :
        (o : Option Bytes)
        → IsWord (client_of o)
        → split_login (base ++ (b'/' ∷ (name ++ client_text o)))
          ≡ record { username = base; network = name; client = client_of o }
    parsed none hc =
        ap (λ s. split_login (base ++ b'/' ∷ s)) (append-nil name) ∙ split-named base name hb hn
    parsed (some c) hc = split-client base name c hb hn hc
