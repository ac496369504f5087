-- ===== src/Core/Bouncer/Merged.antt =====
-- A notification of a bouncer changes what it carries and nothing else.
use stugan.Base.{
  Bool, true, false, ◌||◌, ◌≡◌, refl, subst, ap, sym, ◌∙◌, List, [], ◌∷◌, Bytes, codes, str_eq,
  str_eq_iff, if◌then◌else◌, Bool-cases, inl, inr,
}
use stugan.Core.Bouncer.{BouncerNetwork, merge_attr, merge_bouncer_attrs}

-- whether a list of keys has this one
abbrev pub carries : List Bytes → Bytes → Bool
carries [] k = false
carries (x ∷ ks) k = str_eq x k || carries ks k

record IsOther (k : Bytes) : Type 0 where
  not_name : str_eq k (codes "name") ≡ false
  not_host : str_eq k (codes "host") ≡ false
  not_port : str_eq k (codes "port") ≡ false
  not_tls : str_eq k (codes "tls") ≡ false
  not_nickname : str_eq k (codes "nickname") ≡ false
  not_state : str_eq k (codes "state") ≡ false
  not_error : str_eq k (codes "error") ≡ false

-- either the key is this one, or not
at_key {ℓ} : (P : Bytes → Type ℓ) (k c : Bytes) → P c → (str_eq k c ≡ false → P k) → P k
at_key P k c hit miss = elim (Bool-cases (str_eq k c)) [
  | inl e ↦ subst P (sym ((str_eq_iff k c).0 e)) hit
  | inr e ↦ miss e
]

-- To prove something of every key, prove it of the seven and of any other.
key_cases {ℓ} :
    (P : Bytes → Type ℓ)
    → P (codes "name")
    → P (codes "host")
    → P (codes "port")
    → P (codes "tls")
    → P (codes "nickname")
    → P (codes "state")
    → P (codes "error")
    → ((k : Bytes) → IsOther k → P k)
    → (k : Bytes) → P k
key_cases P n h p t i s e other k = at_key P k (codes "name") n (λ a.
    at_key P k (codes "host") h (λ b. at_key P k (codes "port") p (λ c.
      at_key P k (codes "tls") t (λ d. at_key P k (codes "nickname") i (λ f.
        at_key P k (codes "state") s (λ g. at_key P k (codes "error") e (λ j. other k (record {
          not_name = a;
          not_host = b;
          not_port = c;
          not_tls = d;
          not_nickname = f;
          not_state = g;
          not_error = j;
        }))))))))

-- Each attribute of `new` is the patch's if the keys carry it, and the old one's otherwise.
pub record IsMerged (old patch : BouncerNetwork) (ks : List Bytes) (new : BouncerNetwork)
    : Type 0 where
  pub same_id : new.id ≡ old.id
  pub name : new.name ≡ (if carries ks (codes "name") then patch.name else old.name)
  pub host : new.host ≡ (if carries ks (codes "host") then patch.host else old.host)
  pub port : new.port ≡ (if carries ks (codes "port") then patch.port else old.port)
  pub tls : new.tls ≡ (if carries ks (codes "tls") then patch.tls else old.tls)
  pub nick : new.nick ≡ (if carries ks (codes "nickname") then patch.nick else old.nick)
  pub state : new.state ≡ (if carries ks (codes "state") then patch.state else old.state)
  pub error : new.error ≡ (if carries ks (codes "error") then patch.error else old.error)

other-same : (old patch : BouncerNetwork) (k : Bytes) → IsOther k → merge_attr old patch k ≡ old
unfolding merge_attr
other-same old patch k o =
    rw (o.not_name, o.not_host, o.not_port, o.not_tls, o.not_nickname, o.not_state, o.not_error)
      refl

not_carried {ℓ} :
    {A : Type ℓ} {a : Bool} (patch old : A) → a ≡ false → old ≡ (if a || false then patch else old)
not_carried patch old h = rw h refl

merge_attr-IsMerged :
    (old patch : BouncerNetwork) (k : Bytes) → IsMerged old patch (k ∷ []) (merge_attr old patch k)
unfolding merge_attr str_eq
merge_attr-IsMerged old patch k = record {
  same_id =
      key_cases (λ k. (merge_attr old patch k).id ≡ old.id) refl refl refl refl refl refl refl
        (λ k o. ap (λ b. b.id) (other-same old patch k o)) k;
  name =
      key_cases
        (λ k.
          (merge_attr old patch k).name
          ≡ (if str_eq k (codes "name") || false then patch.name else old.name))
        refl refl refl refl refl refl refl
        (λ k o.
          ap (λ b. b.name) (other-same old patch k o) ∙ not_carried patch.name old.name o.not_name)
        k;
  host =
      key_cases
        (λ k.
          (merge_attr old patch k).host
          ≡ (if str_eq k (codes "host") || false then patch.host else old.host))
        refl refl refl refl refl refl refl
        (λ k o.
          ap (λ b. b.host) (other-same old patch k o) ∙ not_carried patch.host old.host o.not_host)
        k;
  port =
      key_cases
        (λ k.
          (merge_attr old patch k).port
          ≡ (if str_eq k (codes "port") || false then patch.port else old.port))
        refl refl refl refl refl refl refl
        (λ k o.
          ap (λ b. b.port) (other-same old patch k o) ∙ not_carried patch.port old.port o.not_port)
        k;
  tls =
      key_cases
        (λ k.
          (merge_attr old patch k).tls
          ≡ (if str_eq k (codes "tls") || false then patch.tls else old.tls))
        refl refl refl refl refl refl refl
        (λ k o.
          ap (λ b. b.tls) (other-same old patch k o) ∙ not_carried patch.tls old.tls o.not_tls)
        k;
  nick =
      key_cases
        (λ k.
          (merge_attr old patch k).nick
          ≡ (if str_eq k (codes "nickname") || false then patch.nick else old.nick))
        refl refl refl refl refl refl refl
        (λ k o.
          ap (λ b. b.nick) (other-same old patch k o)
          ∙ not_carried patch.nick old.nick o.not_nickname)
        k;
  state =
      key_cases
        (λ k.
          (merge_attr old patch k).state
          ≡ (if str_eq k (codes "state") || false then patch.state else old.state))
        refl refl refl refl refl refl refl
        (λ k o.
          ap (λ b. b.state) (other-same old patch k o)
          ∙ not_carried patch.state old.state o.not_state)
        k;
  error =
      key_cases
        (λ k.
          (merge_attr old patch k).error
          ≡ (if str_eq k (codes "error") || false then patch.error else old.error))
        refl refl refl refl refl refl refl
        (λ k o.
          ap (λ b. b.error) (other-same old patch k o)
          ∙ not_carried patch.error old.error o.not_error)
        k;
}

-- one key, and then more
more_keys {ℓ} :
    {A : Type ℓ} {new mid : A} (patch old : A) (a b : Bool)
    → new ≡ (if b then patch else mid)
    → mid ≡ (if a || false then patch else old)
    → new ≡ (if a || b then patch else old)
more_keys p o true true e f = e
more_keys p o true false e f = e ∙ f
more_keys p o false true e f = e
more_keys p o false false e f = e ∙ f

-- Merging takes from the patch exactly the attributes that the keys name, whatever their order and
-- however often they are named, and never the id.
pub merge-IsMerged :
    (old patch : BouncerNetwork) (ks : List Bytes)
    → IsMerged old patch ks (merge_bouncer_attrs old patch ks)
unfolding merge_bouncer_attrs
merge-IsMerged old patch [] = record {
  same_id = refl;
  name = refl;
  host = refl;
  port = refl;
  tls = refl;
  nick = refl;
  state = refl;
  error = refl;
}
merge-IsMerged old patch (k ∷ ks) =
    let one = merge_attr-IsMerged old patch k in
    let rest = merge-IsMerged (merge_attr old patch k) patch ks in
    record {
      same_id = rest.same_id ∙ one.same_id;
      name =
          more_keys patch.name old.name (str_eq k (codes "name")) (carries ks (codes "name"))
            rest.name one.name;
      host =
          more_keys patch.host old.host (str_eq k (codes "host")) (carries ks (codes "host"))
            rest.host one.host;
      port =
          more_keys patch.port old.port (str_eq k (codes "port")) (carries ks (codes "port"))
            rest.port one.port;
      tls =
          more_keys patch.tls old.tls (str_eq k (codes "tls")) (carries ks (codes "tls")) rest.tls
            one.tls;
      nick =
          more_keys patch.nick old.nick (str_eq k (codes "nickname"))
            (carries ks (codes "nickname")) rest.nick one.nick;
      state =
          more_keys patch.state old.state (str_eq k (codes "state")) (carries ks (codes "state"))
            rest.state one.state;
      error =
          more_keys patch.error old.error (str_eq k (codes "error")) (carries ks (codes "error"))
            rest.error one.error;
    }
