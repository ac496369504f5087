-- ===== src/Core/Bouncer/Commands/Outcomes.antt =====
-- Opening a bouncer's network: all of it, or an error and nothing. And where the lines of the commands go.
use stugan.Base.{
  ℕ, true, false, not, ◌||◌, Option, none, some, ◌⊎◌, inl, inr, ◌≡◌, ◌≢◌, refl, ap, ◌∙◌, List, [],
  ◌∷◌, ◌++◌, Bytes, if_cases, option_cases, subst, arith,
}
use stugan.Go.Strings.{is_empty}
use stugan.Core.Bouncer.{BouncerNetwork, find_bouncer, cap_bouncer_networks}
use stugan.Core.Network.{
  network_exists, already_open, Network, NetworkParams, Conn, Engine, Error, find_network,
  find_conn, network_config, add_network_live,
}
use stugan.Core.Bouncer.Commands.Adding.{
  IsAdded, CannotAdd, Either, one_empty, add_network_live-Either,
}
use stugan.Core.Bouncer.Commands.Bound.{IsBound, bound_params-IsBound}
use stugan.Core.Bouncer.Commands.{
  contains, bouncer_conn, list_bouncer_networks, bouncer_add, bouncer_network, bouncer_delete,
  bound_params, open_error, bouncer_open,
}

-- The network `network` is there, lists a named network under `id` and has a login, and a network for that
-- one is added.
pub record IsOpened (e : Engine) (network id : Bytes) (e' : Engine) : Type 0 where
  pub control : Network
  pub listed : BouncerNetwork
  pub params : NetworkParams
  pub is_control : find_network network e.networks ≡ some control
  pub is_listed : find_bouncer id control.bouncer ≡ some listed
  pub named : listed.name ≢ []
  pub logged_in : control.params.sasl_user ≢ []
  pub bound : IsBound network listed.name control.params params
  pub added : IsAdded e params e'

-- Why a bouncer's network cannot be opened.
pub data CannotOpen (e : Engine) (network id : Bytes) : Type 0 where
  unknown : find_network network e.networks ≡ none → CannotOpen e network id
  unlisted :
      (control : Network)
      → find_network network e.networks ≡ some control
      → find_bouncer id control.bouncer ≡ none
      → CannotOpen e network id
  no_login :
      (control : Network) (listed : BouncerNetwork)
      → find_network network e.networks ≡ some control
      → find_bouncer id control.bouncer ≡ some listed
      → (listed.name ≡ []) ⊎ (control.params.sasl_user ≡ [])
      → CannotOpen e network id
  not_added :
      (control : Network) (listed : BouncerNetwork) (params : NetworkParams)
      → find_network network e.networks ≡ some control
      → find_bouncer id control.bouncer ≡ some listed
      → IsBound network listed.name control.params params
      → CannotAdd e params
      → CannotOpen e network id

-- what is found in a network that is there or not
abbrev listed_in : Bytes → Option Network → Option BouncerNetwork
listed_in id o = elim o [ none ↦ none | some n ↦ find_bouncer id n.bouncer ]

abbrev params_in : Option Network → Option NetworkParams
params_in o = elim o [ some n ↦ some n.params | none ↦ none ]

in_network :
    (id : Bytes) (b : BouncerNetwork) (p : NetworkParams) (o : Option Network)
    → listed_in id o ≡ some b
    → params_in o ≡ some p
    → (n : Network) × (o ≡ some n) × (find_bouncer id n.bouncer ≡ some b) × (p ≡ n.params)
in_network id b p none fb fp = cc
in_network id b p (some n) fb fp = (n, refl, fb, cc)

-- the network whose list and settings were found
found :
    (e : Engine) (network id : Bytes) (b : BouncerNetwork) (p : NetworkParams)
    → bouncer_network e network id ≡ some b
    → network_config e network ≡ some p
    → (n : Network) × (find_network network e.networks ≡ some n)
      × (find_bouncer id n.bouncer ≡ some b)
      × (p ≡ n.params)
unfolding bouncer_network network_config
found e network id b p fb fp = in_network id b p (find_network network e.networks) fb fp

still_error : (name : Bytes) (err : Error) → (x : Error) × (open_error name (some err) ≡ some x)
unfolding open_error
still_error name network_exists = (already_open name, refl)
still_error name err = (err, refl)

not_found :
    (e : Engine) (network id : Bytes) (o : Option Network)
    → find_network network e.networks ≡ o
    → listed_in id o ≡ none
    → CannotOpen e network id
not_found e network id none at missing = unknown at
not_found e network id (some n) at missing = unlisted n at missing

no_params : (o : Option Network) → params_in o ≡ none → o ≡ none
no_params none h = refl
no_params (some n) h = cc

not_empty : (s t : Bytes) → (is_empty s || is_empty t) ≡ false → (s ≢ []) × (t ≢ [])
not_empty [] t h = absurd (ground (arith, h))
not_empty (c ∷ s) [] h = absurd (ground (arith, h))
not_empty (c ∷ s) (d ∷ t) h = ((λ same. cc), (λ same. cc))

IsOpened-Either :
    (e : Engine) (network id : Bytes) (b : BouncerNetwork) (n : Network)
    → find_network network e.networks ≡ some n
    → find_bouncer id n.bouncer ≡ some b
    → (is_empty b.name || is_empty n.params.sasl_user) ≡ false
    → (r : Engine × Option Error) (p : NetworkParams) → IsBound network b.name n.params p
    → Either e (IsAdded e p) (CannotAdd e p) r
    → (name : Bytes)
    → Either e (IsOpened e network id) (CannotOpen e network id) (r.0, open_error name r.1)
unfolding open_error
IsOpened-Either e network id b n there listed given r p bound (inl (ok, added)) name = inl (
  rw ok refl,
  record {
    control = n;
    listed = b;
    params = p;
    is_control = there;
    is_listed = listed;
    named = (not_empty b.name n.params.sasl_user given).0;
    logged_in = (not_empty b.name n.params.sasl_user given).1;
    bound = bound;
    added = added;
  },
)
IsOpened-Either e network id b n there listed given r p bound (inr (err, same, why)) name =
    let (x, told) = still_error name err in
    inr (
      x,
      ap (λ r. (r.0, open_error name r.1)) same ∙ ap (λ o. (e, o)) told,
      not_added n b p there listed bound why,
    )

-- Opening a network of a bouncer fails and changes nothing if the bouncer's network is not there, lists no
-- network under the id or one without a name, or has no login, or if the network cannot be added: its id is
-- taken, it has no address, or it cannot be dialled. If it does not fail, exactly one network is added at the
-- end and dialled, under the id of the two names, which no network had. It starts without channels, keys,
-- commands, monitored nicks and order, at the place 0; its login is the bouncer's with the listed name for the
-- network, the client kept; its other settings are the bouncer's.
pub bouncer_open-Either :
    (e : Engine) (network id : Bytes)
    → Either e (IsOpened e network id) (CannotOpen e network id) (bouncer_open e network id)
unfolding bouncer_open bouncer_network network_config
bouncer_open-Either e network id =
    let P = Either e (IsOpened e network id) (CannotOpen e network id) in
    option_cases P (bouncer_network e network id)
      (λ missing.
        inr (_, refl, not_found e network id (find_network network e.networks) refl missing))
      (λ b fb.
        option_cases P (network_config e network)
          (λ missing. inr (_, refl, unknown (no_params (find_network network e.networks) missing)))
          (λ p fp.
            let (n, there, listed, same) = found e network id b p fb fp in
            if_cases P (is_empty b.name || is_empty p.sasl_user)
              (λ blank. inr (
                _,
                refl,
                no_login n b there listed (
                    one_empty b.name n.params.sasl_user
                      (subst (λ c. (is_empty b.name || is_empty c.sasl_user) ≡ true) same blank)),
              ))
              (λ given.
                IsOpened-Either e network id b n there listed
                  (subst (λ c. (is_empty b.name || is_empty c.sasl_user) ≡ false) same given)
                  (add_network_live e (bound_params network b.name p))
                  (bound_params network b.name p)
                  (subst (λ c. IsBound network b.name c (bound_params network b.name p)) same
                    (bound_params-IsBound network b.name p))
                  (add_network_live-Either e (bound_params network b.name p))
                  (network ++ (b'-' ∷ b.name)))))

-- what goes out goes to a connection that negotiated the capability
abbrev pub OnlyToBouncer : Engine → Bytes → List Bytes → Type 0
OnlyToBouncer e network lines =
    (lines ≡ [])
    ⊎ ((c : Conn) × (find_conn network e.conns ≡ some c)
        × (contains c.caps cap_bouncer_networks ≡ true))

bouncer_conn-cases :
    (e : Engine) (network : Bytes) {R : Type 0} (lines : R → List Bytes) (failed : Error → R)
    (done : Conn → R)
    → ((err : Error) → lines (failed err) ≡ [])
    → OnlyToBouncer e network
        (lines (elim (bouncer_conn e network) [ inl err ↦ failed err | inr c ↦ done c ]))
unfolding bouncer_conn
bouncer_conn-cases e network lines failed done none_sent =
    let P : (Error ⊎ Conn) → Type 0 =
      λ r. OnlyToBouncer e network (lines (elim r [ inl err ↦ failed err | inr c ↦ done c ])) in
    option_cases P (find_conn network e.conns) (λ _. inl (none_sent _))
      (λ c known.
        if_cases P (not (contains c.caps cap_bouncer_networks)) (λ _. inl (none_sent _))
          (λ has. inr (c, known, ground (arith, has))))

-- Whatever the networks and the arguments are, listing, adding and deleting send lines only to a connection
-- that negotiated the capability for it.
pub only_to_bouncer :
    (itoa : ℕ → Bytes) (e : Engine) (network : Bytes) (b : BouncerNetwork) (pass id : Bytes)
    → OnlyToBouncer e network (list_bouncer_networks e network)
      × OnlyToBouncer e network (bouncer_add itoa e network b pass).0
      × OnlyToBouncer e network (bouncer_delete e network id).0
unfolding list_bouncer_networks bouncer_add bouncer_delete
only_to_bouncer itoa e network b pass id = (
  bouncer_conn-cases e network (λ ls. ls) (λ _. []) _ (λ _. refl),
  bouncer_conn-cases e network (λ (r : List Bytes × Option Error). r.0) (λ err. ([], some err)) _
      (λ _. refl),
  bouncer_conn-cases e network (λ (r : List Bytes × Option Error). r.0) (λ err. ([], some err)) _
      (λ _. refl),
)
