-- ===== src/Web/ClientIp.antt =====
-- internal/server/ratelimit.go: the address that a request is counted under.
use stugan.Base.{
  ℕ, Bool, true, false, not, ◌&&◌, Option, none, some, List, [], ◌∷◌, ◌++◌, Bytes, if◌then◌else◌,
  ◌≡◌, ◌≢◌, refl, ap, sym, ◌∙◌, Bool-cases, inl, inr, ◌==◌, ==→eq, append-nil, append_assoc,
}
use stugan.Go.Strings.Laws.{Lacks}
use stugan.Go.Space.{trim_space}

-- `strings.Split(s, ",")`, its parts from the last one on
unfoldable pub parts_back : Bytes → Bytes → List Bytes → List Bytes
parts_back [] part done = part ∷ done
parts_back (c ∷ s) part done = elim (c == b',') [
  | true ↦ parts_back s [] (part ∷ done)
  | false ↦ parts_back s (part ++ c ∷ []) done
]

unfoldable pub is_blank : Bytes → Bool
is_blank [] = true
is_blank (c ∷ s) = false

-- What the code takes from package net and from a request: `host_of` is the host that
-- `SplitHostPort` gives, `is_ip` whether `ParseIP` takes a text, `trusted` the configured ranges.
pub record Net : Type 0 where
  pub host_of : Bytes → Option Bytes
  pub is_ip : Bytes → Bool
  pub in_ranges : Bytes → Bool

-- `trustedProxy`
unfoldable pub trusted_proxy : Net → Bytes → Bool
trusted_proxy net ip = net.is_ip ip && net.in_ranges ip

-- The loop over the forwarded addresses, from the last one on.
unfoldable pub last_untrusted : Net → Bytes → List Bytes → Bytes
unfolding is_blank
last_untrusted net host [] = host
last_untrusted net host (p ∷ ps) =
    let ip = trim_space p in
    let rest = last_untrusted net host ps in
    if not (is_blank ip) && not (trusted_proxy net ip) then ip else rest

-- `clientIP`; `cf` and `xff` are the two headers.
unfoldable pub client_ip : Net → Bytes → Bytes → Bytes → Bytes
unfolding is_blank
client_ip net remote cf xff =
    let host : Bytes = elim (net.host_of remote) [ some h ↦ h | none ↦ remote ] in
    let visitor = trim_space cf in
    if not (trusted_proxy net host)
    then host
    else if not (is_blank visitor) && net.is_ip visitor
    then visitor
    else if is_blank xff
    then host
    else last_untrusted net host (parts_back xff [] [])

parts_back-word :
    (real part : Bytes) (done : List Bytes)
    → Lacks b',' real
    → parts_back real part done ≡ (part ++ real) ∷ done
unfolding parts_back
parts_back-word [] part done h = ap (λ (t : Bytes). t ∷ done) (sym (append-nil part))
parts_back-word (c ∷ real) part done (h, hs) = elim (Bool-cases (c == b',')) [
  | inl e ↦ absurd (h (==→eq c b',' e))
  | inr e ↦
      rw (e, parts_back)
        (parts_back-word real (part ++ c ∷ []) done hs
          ∙ ap (λ (t : Bytes). t ∷ done) (append_assoc part (c ∷ []) real))
]

parts_back-last :
    (p real part : Bytes) (done : List Bytes)
    → Lacks b',' real
    → (more : List Bytes) × (parts_back (p ++ b',' ∷ real) part done ≡ real ∷ more)
unfolding parts_back
parts_back-last [] real part done h = (part ∷ done, parts_back-word real [] (part ∷ done) h)
parts_back-last (c ∷ p) real part done h = elim (Bool-cases (c == b',')) [
  | inl e ↦ rw (e, parts_back) (parts_back-last p real [] (part ∷ done) h)
  | inr e ↦ rw (e, parts_back) (parts_back-last p real (part ++ c ∷ []) done h)
]

not_blank-append : (p : Bytes) (c : ℕ) (s : Bytes) → is_blank (p ++ c ∷ s) ≡ false
unfolding is_blank
not_blank-append [] c s = refl
not_blank-append (x ∷ p) c s = refl

not_blank : (s : Bytes) → s ≢ [] → is_blank s ≡ false
unfolding is_blank
not_blank [] h = absurd (h refl)
not_blank (c ∷ s) h = refl

-- Behind a trusted proxy that adds an untrusted address at the end of the forwarded ones, a request is
-- counted under what CF-Connecting-IP says when that is an address, and under the added address when it is
-- not. What stands in front of the added address never counts.
pub client_ip_lem :
    (net : Net) (remote host cf forged real : Bytes)
    → net.host_of remote ≡ some host
    → (net.is_ip host && net.in_ranges host) ≡ true
    → Lacks b',' real
    → trim_space real ≢ []
    → (net.is_ip (trim_space real) && net.in_ranges (trim_space real)) ≡ false
    → client_ip net remote cf (forged ++ b',' ∷ real) ≡ (
        if not (is_blank (trim_space cf)) && net.is_ip (trim_space cf)
        then trim_space cf
        else trim_space real)
unfolding client_ip last_untrusted is_blank trusted_proxy
client_ip_lem net remote host cf forged real at by lacks named foreign =
    let seen = not_blank (trim_space real) named in
    let (more, e) = parts_back-last forged real [] [] lacks in
    rw (at, client_ip) (rw by (rw (not_blank-append forged b',' real, e) (rw (seen, foreign) refl)))
