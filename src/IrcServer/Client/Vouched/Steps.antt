-- ===== src/IrcServer/Client/Vouched/Steps.antt =====
-- Every command before the registration keeps that.
use stugan.Base.{
  true, false, not, ◌&&◌, ◌||◌, some, List, [], ◌∷◌, Bytes, ◌≡◌, arith, Option-cases, if_cases, inl,
  inr,
}
use stugan.Go.Strings.{is_empty, to_lower}
use stugan.IrcServer.Login.{parse_credentials}
use stugan.IrcServer.Client.{Hub, Tenant, Network, Client, has_cap, reply}
use stugan.IrcServer.Client.Sasl.{vouched_user, single_user_authorized, single_user_id}
use stugan.IrcServer.Client.Register.{
  cap_bouncer_networks, no_networks, fail_registration, bind_network, register_control,
  bouncer_allowed, complete_attach, attach_only, attach_network, attach_tenant, unknown_net_id,
  find_network, is_bound, is_selected, authenticate_single, authenticate_as, authenticate_pass,
  single_user_login, authenticate, maybe_finish_registration,
}
use stugan.IrcServer.Client.Vouched.{
  Vouched, Allowed, IsVouched, SameLogin-IsVouched, SameLogin-trans, reply-SameLogin,
  fail_registration-SameLogin, close_with_error-SameLogin,
}

module _ (hub : Hub) where
  failed : (c : Client) (text : Bytes) → IsVouched hub c → IsVouched hub (fail_registration c text)
  failed c text v = SameLogin-IsVouched (fail_registration-SameLogin c text) v

  pub replied :
      (c : Client) (code : Bytes) (ps : List Bytes)
      → IsVouched hub c
      → IsVouched hub (reply c code ps)
  replied c code ps v = SameLogin-IsVouched (reply-SameLogin c code ps) v

  bind_network-IsVouched :
      (c : Client) (user : Bytes) (n : Network)
      → Vouched hub c.remote_addr user
      → Allowed hub user
      → IsVouched hub c
      → IsVouched hub (bind_network c user n)
  unfolding bind_network
  bind_network-IsVouched c user n who may v = record {
    sasl_vouched = v.sasl_vouched;
    user_vouched = λ _. who;
    user_allowed = λ _. may;
  }

  register_control-IsVouched :
      (c : Client) (user : Bytes)
      → Vouched hub c.remote_addr user
      → Allowed hub user
      → IsVouched hub c
      → IsVouched hub (register_control c user)
  unfolding register_control
  register_control-IsVouched c user who may v = record {
    sasl_vouched = v.sasl_vouched;
    user_vouched = λ _. who;
    user_allowed = λ _. may;
  }

  -- The choice of the network of a user who is let in.
  module _ (c : Client) (user : Bytes) (who : Vouched hub c.remote_addr user)
      (v : IsVouched hub c) where
    module _ (may : Allowed hub user) where
      attach_only-IsVouched : (ns : List Network) → IsVouched hub (attach_only c user ns)
      unfolding attach_only
      attach_only-IsVouched [] = failed c _ v
      attach_only-IsVouched (n ∷ []) = bind_network-IsVouched c user n who may v
      attach_only-IsVouched (n ∷ (m ∷ ns)) = failed c _ v

      attach_network-IsVouched :
          (sel : Bytes) (ns : List Network) → IsVouched hub (attach_network hub c user sel ns)
      unfolding attach_network unknown_net_id
      attach_network-IsVouched sel ns =
          if_cases (IsVouched hub) (not (is_empty c.bound_net_id))
            (λ _. elim (Option-cases (find_network (is_bound c.bound_net_id) ns)) [
              | inl e ↦ rw e (
                  SameLogin-IsVouched
                    (SameLogin-trans (reply-SameLogin c _ _) (close_with_error-SameLogin _ _)) v)
              | inr (n, e) ↦ rw e (bind_network-IsVouched c user n who may v)
            ])
            (λ _.
              if_cases (IsVouched hub) (not (is_empty sel))
                (λ _.
                  elim (Option-cases
                    (find_network (is_selected hub (to_lower hub.unicode_lower sel)) ns)) [
                      | inl e ↦ rw e (failed c _ v)
                      | inr (n, e) ↦ rw e (bind_network-IsVouched c user n who may v)
                    ])
                (λ _. attach_only-IsVouched ns))

    attach_tenant-IsVouched :
        (sel : Bytes) (t : Tenant)
        → hub.tenant user ≡ some t
        → IsVouched hub (attach_tenant hub c user sel t)
    unfolding attach_tenant
    attach_tenant-IsVouched sel t there =
        if_cases (IsVouched hub) (not (bouncer_allowed t)) (λ _. failed c _ v)
          (λ ok.
            let may : Allowed hub user = (t, there, ground (arith, ok)) in
            elim (Option-cases t.networks) [
              | inl e ↦ rw e (failed c _ v)
              | inr (ns, e) ↦ rw e (
                  if_cases (IsVouched hub)
                    (is_empty c.bound_net_id
                      && (is_empty sel && has_cap c.caps cap_bouncer_networks))
                    (λ _. register_control-IsVouched c user who may v)
                    (λ _.
                      if_cases (IsVouched hub) (no_networks ns) (λ _. failed c _ v)
                        (λ _. attach_network-IsVouched may sel ns)))
            ])

    complete_attach-IsVouched : (sel : Bytes) → IsVouched hub (complete_attach hub c user sel)
    unfolding complete_attach
    complete_attach-IsVouched sel = elim (Option-cases (hub.tenant user)) [
      | inl e ↦ rw (e, complete_attach) (failed c _ v)
      | inr (t, e) ↦ rw (e, complete_attach) (attach_tenant-IsVouched sel t e)
    ]

  authenticate_single-IsVouched :
      (c : Client)
      → hub.auth_enabled ≡ false
      → IsVouched hub c
      → IsVouched hub (authenticate_single hub c)
  unfolding authenticate_single vouched_user
  authenticate_single-IsVouched c single v =
      let login = single_user_login c in
      if_cases (IsVouched hub) (single_user_authorized hub c.remote_addr login.1)
        (λ ok.
          complete_attach-IsVouched c (single_user_id hub) ([], login.1, simp (single, ok)) v
            login.0)
        (λ _.
          if_cases (IsVouched hub) (is_empty hub.password_hash) (λ _. failed c _ v)
            (λ _. failed c _ v))

  authenticate_pass-IsVouched :
      (c : Client)
      → hub.auth_enabled ≡ true
      → IsVouched hub c
      → IsVouched hub (authenticate_pass hub c)
  unfolding authenticate_pass authenticate_as vouched_user
  authenticate_pass-IsVouched c on v =
      if_cases (IsVouched hub) (is_empty c.pass_raw) (λ _. failed c _ v)
        (λ _. elim (Option-cases (parse_credentials c.pass_raw c.client_user)) [
          | inl e ↦ rw e (failed c _ v)
          | inr (creds, e) ↦ rw e (
              if_cases (IsVouched hub) (is_empty creds.username) (λ _. failed c _ v)
                (λ _. elim (Option-cases (hub.login creds.username creds.secret)) [
                  | inl none_such ↦ rw none_such (failed c _ v)
                  | inr (user, known) ↦ rw known (
                      complete_attach-IsVouched c user (creds.username, creds.secret, rw on known) v
                        creds.network)
                ]))
        ])

  authenticate-IsVouched : (c : Client) → IsVouched hub c → IsVouched hub (authenticate hub c)
  unfolding authenticate
  authenticate-IsVouched c v =
      if_cases (IsVouched hub) (not (is_empty c.sasl_user))
        (λ named.
          complete_attach-IsVouched c c.sasl_user (v.sasl_vouched (ground (arith, named))) v _)
        (λ _.
          if_cases (IsVouched hub) (not hub.auth_enabled)
            (λ off. authenticate_single-IsVouched c (ground (arith, off)) v)
            (λ on. authenticate_pass-IsVouched c (ground (arith, on)) v))

  pub maybe_finish-IsVouched :
      (c : Client) → IsVouched hub c → IsVouched hub (maybe_finish_registration hub c)
  unfolding maybe_finish_registration
  maybe_finish-IsVouched c v =
      if_cases (IsVouched hub) (c.registered || c.closed) (λ _. v)
        (λ _.
          if_cases (IsVouched hub)
            (is_empty c.client_nick || (is_empty c.client_user || c.cap_negotiating)) (λ _. v)
            (λ _. authenticate-IsVouched c v))
