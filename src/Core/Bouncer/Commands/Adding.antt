-- ===== src/Core/Bouncer/Commands/Adding.antt =====
-- AddNetworkLive of internal/core/engine.go: all of it, or an error and nothing.
use stugan.Base.{
  true, ◌||◌, Option, none, some, ◌⊎◌, inl, inr, ◌≡◌, refl, [], ◌∷◌, ◌++◌, Bytes, if_cases,
  option_cases, arith,
}
use stugan.Go.Strings.{is_empty}
use stugan.Core.Network.{
  Network, NetworkParams, Conn, Engine, Error, find_network, add_network_live,
}

-- A network more, with these settings, and a connection that was dialled with them.
pub record IsAdded (e : Engine) (p : NetworkParams) (e' : Engine) : Type 0 where
  pub fresh : find_network p.id e.networks ≡ none
  pub networks :
      e'.networks
      ≡ e.networks
        ++ (record { id = p.id; name = p.name; nick = p.nick; params = p; bouncer = [] }) ∷ []
  pub conn :
      (dial : NetworkParams → Option Conn) × (c : Conn) × (e.dial ≡ some dial)
      × (dial p ≡ some c)
      × (e'.conns ≡ (p.id, c) ∷ e.conns)

-- Why a network cannot be added.
pub data CannotAdd (e : Engine) (p : NetworkParams) : Type 0 where
  unaddressed : (p.id ≡ []) ⊎ (p.addr ≡ []) → CannotAdd e p
  no_dialler : e.dial ≡ none → CannotAdd e p
  taken : (n : Network) → find_network p.id e.networks ≡ some n → CannotAdd e p
  undialled :
      (dial : NetworkParams → Option Conn) → e.dial ≡ some dial → dial p ≡ none → CannotAdd e p

-- Either all of it, or an error and nothing, for a reason.
abbrev pub Either : Engine → (Engine → Type 0) → Type 0 → Engine × Option Error → Type 0
Either e Done Why r = ((r.1 ≡ none) × Done r.0) ⊎ ((err : Error) × (r ≡ (e, some err)) × Why)

pub one_empty : (s t : Bytes) → (is_empty s || is_empty t) ≡ true → (s ≡ []) ⊎ (t ≡ [])
one_empty [] t h = inl refl
one_empty (c ∷ s) [] h = inr refl
one_empty (c ∷ s) (d ∷ t) h = absurd (ground (arith, h))

-- Adding a network either adds it under a new id, with the connection dialled, or fails for a reason and
-- changes nothing.
pub add_network_live-Either :
    (e : Engine) (p : NetworkParams) → Either e (IsAdded e p) (CannotAdd e p) (add_network_live e p)
unfolding add_network_live
add_network_live-Either e p =
    let P = Either e (IsAdded e p) (CannotAdd e p) in
    if_cases P (is_empty p.id || is_empty p.addr)
      (λ blank. inr (_, refl, unaddressed (one_empty p.id p.addr blank)))
      (λ _.
        option_cases P e.dial (λ none_there. inr (_, refl, no_dialler none_there))
          (λ dial is_dial.
            option_cases P (find_network p.id e.networks)
              (λ free.
                option_cases P (dial p) (λ failed. inr (_, refl, undialled dial is_dial failed))
                  (λ c dialled. inl (
                    refl,
                    record {
                      fresh = free;
                      networks = refl;
                      conn = (dial, c, is_dial, dialled, refl);
                    },
                  )))
              (λ n there. inr (_, refl, taken n there))))
