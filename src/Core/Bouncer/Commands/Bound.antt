-- ===== src/Core/Bouncer/Commands/Bound.antt =====
-- internal/core/bouncer.go: the settings of a bouncer's network, and the login at it, field by field.
use mathlib.Core.Option
use stugan.Base.{
  ℕ, suc, Option, none, some, inl, inr, ◌≡◌, refl, ap, subst, ◌∙◌, [], ◌∷◌, ◌++◌, Bytes, ◌≢◌,
  Bool-cases, ◌==◌, ==→eq, take, drop, arith,
}
use stugan.Go.Strings.{index_byte}
use stugan.Go.Strings.Laws.{Lacks}
use stugan.Core.Network.{NetworkParams}
use stugan.Core.Bouncer.Commands.{split_client, without_network, bound_login, bound_params}

-- Empty, or starting with `c`.
abbrev pub StartsAt : ℕ → Bytes → Type 0
StartsAt c [] = Unit {0}
StartsAt c (x ∷ s) = x ≡ c

-- A login `user/network@client`, network and client left out or not, with `name` as its network.
pub record IsLoginAt (name login result : Bytes) : Type 0 where
  pub user : Bytes
  pub network : Bytes
  pub client : Bytes
  pub is_login : login ≡ (user ++ network) ++ client
  pub is_user : Lacks b'/' user
  pub no_client : Lacks b'@' (user ++ network)
  pub network_at : StartsAt b'/' network
  pub client_at : StartsAt b'@' client
  pub is_result : result ≡ user ++ (b'/' ∷ (name ++ client))

-- What the network `name` behind the network `network` has of its own, and all that it takes from the
-- settings of that one.
pub record IsBound (network name : Bytes) (control p : NetworkParams) : Type 0 where
  pub id : p.id ≡ network ++ (b'-' ∷ name)
  pub named : p.name ≡ network ++ (b'-' ∷ name)
  pub login : IsLoginAt name control.sasl_user p.sasl_user
  pub no_channels : (p.channels ≡ []) × (p.channel_keys ≡ [])
  pub no_lists : (p.perform ≡ []) × (p.monitor ≡ []) × (p.buffer_order ≡ [])
  pub first : p.pos ≡ 0
  pub where_to : (p.addr ≡ control.addr) × (p.fallbacks ≡ control.fallbacks)
  pub transport :
      (p.tls ≡ control.tls) × (p.insecure ≡ control.insecure) × (p.cert_pem ≡ control.cert_pem)
  pub person : (p.nick ≡ control.nick) × (p.user ≡ control.user) × (p.realname ≡ control.realname)
  pub secrets :
      (p.sasl_pass ≡ control.sasl_pass)
      × (p.server_pass ≡ control.server_pass)
      × (p.sasl_external ≡ control.sasl_external)
      × (p.sasl_scram ≡ control.sasl_scram)
  pub hold : p.join_hold_timeout ≡ control.join_hold_timeout

-- A text cut in front of the first `c`.
record IsCut (c : ℕ) (s : Bytes) (r : Bytes × Bytes) : Type 0 where
  joined : s ≡ r.0 ++ r.1
  front : Lacks c r.0
  back : StartsAt c r.1

abbrev cut_at : Bytes → Option ℕ → Bytes × Bytes
cut_at s (some i) = (take i s, drop i s)
cut_at s none = (s, [])

-- one byte more in front of the cut
abbrev further : ℕ → Bytes × Bytes → Bytes × Bytes
further x (f, b) = (x ∷ f, b)

cut_at-suc :
    (x : ℕ) (s : Bytes) (o : Option ℕ) → cut_at (x ∷ s) (Option.map suc o) ≡ further x (cut_at s o)
cut_at-suc x s none = refl
cut_at-suc x s (some i) = refl

further-IsCut :
    (c x : ℕ) (s : Bytes) (r : Bytes × Bytes) → x ≢ c → IsCut c s r → IsCut c (x ∷ s) (further x r)
further-IsCut c x s (f, b) here cut = record {
  joined = ap (λ (t : Bytes). x ∷ t) cut.joined;
  front = (here, cut.front);
  back = cut.back;
}

cut_at-IsCut : (c : ℕ) (s : Bytes) → IsCut c s (cut_at s (index_byte s c))
unfolding index_byte
cut_at-IsCut c [] = record { joined = refl; front = tt; back = tt }
cut_at-IsCut c (x ∷ s) = elim (Bool-cases (x == c)) [
  | inl e ↦ rw e record { joined = refl; front = tt; back = ==→eq x c e }
  | inr e ↦ rw e (
      rw (cut_at-suc x s (index_byte s c))
        (further-IsCut c x s _ (ground (arith, e)) (cut_at-IsCut c s)))
]

split_client-cut : (s : Bytes) → split_client s ≡ cut_at s (index_byte s b'@')
unfolding split_client
split_client-cut s = elim (index_byte s b'@') [ some i ↦ refl | none ↦ refl ]

cut_at-front :
    (s : Bytes) (o : Option ℕ) → (elim o [ some i ↦ take i s | none ↦ s ]) ≡ (cut_at s o).0
cut_at-front s none = refl
cut_at-front s (some i) = refl

without_network-cut : (s : Bytes) → without_network s ≡ (cut_at s (index_byte s b'/')).0
unfolding without_network
without_network-cut s = cut_at-front s (index_byte s b'/')

bound_login-IsLoginAt : (login name : Bytes) → IsLoginAt name login (bound_login login name)
unfolding bound_login
bound_login-IsLoginAt login name =
    let at = cut_at-IsCut b'@' login in
    let front = (cut_at login (index_byte login b'@')).0 in
    let slash = cut_at-IsCut b'/' front in
    rw (split_client-cut login) (
      rw (without_network-cut front) record {
        user = _;
        network = _;
        client = _;
        is_login = at.joined ∙ ap (λ s. s ++ (cut_at login (index_byte login b'@')).1) slash.joined;
        is_user = slash.front;
        no_client = subst (Lacks b'@') slash.joined at.front;
        network_at = slash.back;
        client_at = at.back;
        is_result = refl;
      })

-- The settings of a bouncer's network are the control network's but for what it has of its own.
pub bound_params-IsBound :
    (network name : Bytes) (p : NetworkParams)
    → IsBound network name p (bound_params network name p)
unfolding bound_params
bound_params-IsBound network name p = record {
  id = refl;
  named = refl;
  login = bound_login-IsLoginAt p.sasl_user name;
  no_channels = (refl, refl);
  no_lists = (refl, refl, refl);
  first = refl;
  where_to = (refl, refl);
  transport = (refl, refl, refl);
  person = (refl, refl, refl);
  secrets = (refl, refl, refl, refl);
  hold = refl;
}
