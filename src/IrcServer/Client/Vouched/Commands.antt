-- ===== src/IrcServer/Client/Vouched/Commands.antt =====
-- Every command before the registration keeps that only users who are let in are registered.
use stugan.Base.{
  not, ◌&&◌, ◌||◌, Option, none, some, List, [], ◌∷◌, ◌++◌, Bytes, codes, if◌then◌else◌, str_eq,
  refl, subst, arith, Option-cases, if_cases, inl, inr, ltb, length, ◌==◌,
}
use stugan.Go.Space.{fields}
use stugan.Go.Strings.{is_empty, split, to_upper}
use stugan.IrcServer.Parse.{Message}
use stugan.IrcServer.Login.{unmarshal_login}
use stugan.IrcServer.Caps.{cap_sasl, sasl_mechanisms}
use stugan.IrcServer.Client.{Hub, Client, has_cap, current_nick_or, numeric}
use stugan.IrcServer.Client.Sasl.{
  finish_parts, finish_decoded, choose_mech, sasl_failed, logged_in, reset_sasl, has_mech,
  vouched_user, finish_sasl_plain, finish_response, take_chunk, handle_sasl, max_sasl_response,
  sasl_chunk,
}
use stugan.IrcServer.Client.Register.{cap_bouncer_networks}
use stugan.IrcServer.Client.Register.Commands.{
  set_user, set_pass, set_nick, pong, bind_id, handle_bouncer_pre_reg, pre_command,
  handle_pre_registration,
}
use stugan.IrcServer.Client.Caps.{
  handle_cap, request, cap_reply, negotiating, no_fields, all_supported, param_0,
}
use stugan.IrcServer.Client.Vouched.{
  IsVouched, SameLogin, SameLogin-IsVouched, write-SameLogin, reply-SameLogin, destroy-SameLogin,
}
use stugan.IrcServer.Client.Vouched.Steps.{replied, maybe_finish-IsVouched}

set_user-SameLogin : (c : Client) (ps : List Bytes) → SameLogin c (set_user c ps)
unfolding set_user
set_user-SameLogin c [] = ground arith
set_user-SameLogin c (u ∷ []) = ground arith
set_user-SameLogin c (u ∷ (m ∷ [])) = ground arith
set_user-SameLogin c (u ∷ (m ∷ (x ∷ []))) = ground arith
set_user-SameLogin c (u ∷ (m ∷ (x ∷ (r ∷ ps)))) = ground arith

set_pass-SameLogin : (c : Client) (ps : List Bytes) → SameLogin c (set_pass c ps)
unfolding set_pass
set_pass-SameLogin c [] = ground arith
set_pass-SameLogin c (p ∷ ps) = ground arith

set_nick-SameLogin : (hub : Hub) (c : Client) (ps : List Bytes) → SameLogin c (set_nick hub c ps)
unfolding set_nick
set_nick-SameLogin hub c [] = ground arith
set_nick-SameLogin hub c (p ∷ ps) = ground arith

pong-SameLogin : (c : Client) (ps : List Bytes) → SameLogin c (pong c ps)
unfolding pong
pong-SameLogin c [] = reply-SameLogin c _ _
pong-SameLogin c (p ∷ ps) = reply-SameLogin c _ _

module _ (hub : Hub) where
  finish_parts-IsVouched :
      (c : Client) (nick z u p : Bytes)
      → IsVouched hub c
      → IsVouched hub (finish_parts hub c nick z u p)
  unfolding finish_parts sasl_failed logged_in
  finish_parts-IsVouched c nick z u p v =
      let parsed = unmarshal_login (if is_empty u then z else u) in
      if_cases (IsVouched hub) (is_empty parsed.username || is_empty p) (λ _. replied hub c _ _ v)
        (λ _. elim (Option-cases (vouched_user hub c.remote_addr parsed.username p)) [
          | inl e ↦ rw e (replied hub c _ _ v)
          | inr (user, e) ↦ rw e (
              replied hub _ _ _ (
                replied hub _ _ _ record {
                  sasl_vouched = λ _. (parsed.username, p, e);
                  user_vouched = v.user_vouched;
                  user_allowed = v.user_allowed;
                }))
        ])

  finish_decoded-IsVouched :
      (c : Client) (nick : Bytes) (ps : List Bytes)
      → IsVouched hub c
      → IsVouched hub (finish_decoded hub c nick ps)
  unfolding finish_decoded sasl_failed
  finish_decoded-IsVouched c nick (z ∷ (u ∷ (p ∷ []))) v = finish_parts-IsVouched c nick z u p v
  finish_decoded-IsVouched c nick [] v = replied hub c _ _ v
  finish_decoded-IsVouched c nick (z ∷ []) v = replied hub c _ _ v
  finish_decoded-IsVouched c nick (z ∷ (u ∷ [])) v = replied hub c _ _ v
  finish_decoded-IsVouched c nick (z ∷ (u ∷ (p ∷ (q ∷ ps)))) v = replied hub c _ _ v

  finish_sasl_plain-IsVouched :
      (c : Client) (b64 nick : Bytes)
      → IsVouched hub c
      → IsVouched hub (finish_sasl_plain hub c b64 nick)
  unfolding finish_sasl_plain sasl_failed
  finish_sasl_plain-IsVouched c b64 nick v = elim (Option-cases (hub.decode_base64 b64)) [
    | inl e ↦ rw (e, finish_sasl_plain) (replied hub c _ _ v)
    | inr (d, e) ↦ rw (e, finish_sasl_plain) (finish_decoded-IsVouched c nick (split d 0) v)
  ]

  reset : (c : Client) → IsVouched hub c → IsVouched hub (reset_sasl c)
  unfolding reset_sasl
  reset c v =
      SameLogin-IsVouched
        record { same_addr = refl; same_sasl = refl; same_user = refl; same_reg = refl } v

  finish_response-IsVouched :
      (c : Client) (nick : Bytes) → IsVouched hub c → IsVouched hub (finish_response hub c nick)
  unfolding finish_response reset_sasl
  finish_response-IsVouched c nick v = finish_sasl_plain-IsVouched _ c.sasl_buf nick (reset c v)

  take_chunk-IsVouched :
      (c : Client) (nick arg : Bytes) → IsVouched hub c → IsVouched hub (take_chunk hub c nick arg)
  unfolding take_chunk reset_sasl
  take_chunk-IsVouched c nick arg v =
      let more : Client = record c { sasl_buf = c.sasl_buf ++ arg } in
      let v' : IsVouched hub more =
        SameLogin-IsVouched {c = c}
          record { same_addr = refl; same_sasl = refl; same_user = refl; same_reg = refl } v in
      if_cases (IsVouched hub) (ltb max_sasl_response (length (c.sasl_buf ++ arg)))
        (λ _. replied hub _ _ _ (reset more v'))
        (λ _.
          if_cases (IsVouched hub) (length arg == sasl_chunk) (λ _. v')
            (λ _. finish_response-IsVouched more nick v'))

  choose_mech-IsVouched :
      (c : Client) (nick arg : Bytes) → IsVouched hub c → IsVouched hub (choose_mech hub c nick arg)
  unfolding choose_mech sasl_failed
  choose_mech-IsVouched c nick arg v =
      if_cases (IsVouched hub) (has_mech sasl_mechanisms (to_upper hub.unicode_upper arg))
        (λ _. SameLogin-IsVouched (write-SameLogin _ _) (
          SameLogin-IsVouched {c = c}
            record { same_addr = refl; same_sasl = refl; same_user = refl; same_reg = refl } v))
        (λ _. replied hub _ _ _ (replied hub c _ _ v))

  handle_sasl-IsVouched :
      (c : Client) (msg : Message) → IsVouched hub c → IsVouched hub (handle_sasl hub c msg)
  unfolding handle_sasl reset_sasl
  handle_sasl-IsVouched c msg v =
      let nick = current_nick_or c (codes "*") in
      let arg = param_0 msg.params in
      if_cases (IsVouched hub) (not (has_cap c.caps cap_sasl)) (λ _. replied hub c _ _ v)
        (λ _.
          if_cases (IsVouched hub) (is_empty c.sasl_mech) (λ _. choose_mech-IsVouched c nick arg v)
            (λ _.
              if_cases (IsVouched hub) (str_eq arg (codes "*")) (λ _. replied hub _ _ _ (reset c v))
                (λ _.
                  if_cases (IsVouched hub) (str_eq arg (codes "+"))
                    (λ _. finish_response-IsVouched c nick v)
                    (λ _. take_chunk-IsVouched c nick arg v))))

  cap_reply-IsVouched :
      (c : Client) (sub text : Bytes) → IsVouched hub c → IsVouched hub (cap_reply c sub text)
  unfolding cap_reply
  cap_reply-IsVouched c sub text v = replied hub c _ _ v

  negotiating-IsVouched : (c : Client) → IsVouched hub c → IsVouched hub (negotiating c)
  unfolding negotiating
  negotiating-IsVouched c v =
      if_cases (IsVouched hub) c.registered (λ _. v)
        (λ _.
          SameLogin-IsVouched {c = c}
            record { same_addr = refl; same_sasl = refl; same_user = refl; same_reg = refl } v)

  request-IsVouched : (c : Client) (req : Bytes) → IsVouched hub c → IsVouched hub (request c req)
  unfolding request
  request-IsVouched c req v =
      if_cases (IsVouched hub) (not (all_supported (fields req)) || no_fields (fields req))
        (λ _. cap_reply-IsVouched c _ req v)
        (λ _. cap_reply-IsVouched _ _ req (
          SameLogin-IsVouched {c = c}
            record { same_addr = refl; same_sasl = refl; same_user = refl; same_reg = refl } v))

  handle_cap-IsVouched :
      (c : Client) (msg : Message) → IsVouched hub c → IsVouched hub (handle_cap hub c msg)
  unfolding handle_cap
  handle_cap-IsVouched c msg v =
      let sub = to_upper hub.unicode_upper (param_0 msg.params) in
      if_cases (IsVouched hub) (str_eq sub (codes "LS"))
        (λ _. cap_reply-IsVouched _ _ _ (negotiating-IsVouched c v))
        (λ _.
          if_cases (IsVouched hub) (str_eq sub (codes "LIST")) (λ _. cap_reply-IsVouched c _ _ v)
            (λ _.
              if_cases (IsVouched hub) (str_eq sub (codes "REQ"))
                (λ _. request-IsVouched _ _ (negotiating-IsVouched c v))
                (λ _.
                  if_cases (IsVouched hub) (str_eq sub (codes "END"))
                    (λ _.
                      SameLogin-IsVouched {c = c}
                        record {
                          same_addr = refl;
                          same_sasl = refl;
                          same_user = refl;
                          same_reg = refl;
                        }
                        v)
                    (λ _. replied hub c _ _ v))))

  bind_id-IsVouched :
      (c : Client) (ps : List Bytes) → IsVouched hub c → IsVouched hub (bind_id c ps)
  unfolding bind_id
  bind_id-IsVouched c [] v = v
  bind_id-IsVouched c (sub ∷ []) v = v
  bind_id-IsVouched c (sub ∷ (id ∷ ps)) v =
      SameLogin-IsVouched {c = c}
        record { same_addr = refl; same_sasl = refl; same_user = refl; same_reg = refl } v

  handle_bouncer-IsVouched :
      (c : Client) (msg : Message)
      → IsVouched hub c
      → IsVouched hub (handle_bouncer_pre_reg hub c msg)
  unfolding handle_bouncer_pre_reg
  handle_bouncer-IsVouched c msg v =
      if_cases (IsVouched hub) (not (has_cap c.caps cap_bouncer_networks))
        (λ _. replied hub c _ _ v)
        (λ _.
          if_cases (IsVouched hub)
            (not (str_eq (to_upper hub.unicode_upper (param_0 msg.params)) (codes "BIND")))
            (λ _. replied hub c _ _ v)
            (λ _.
              if_cases (IsVouched hub)
                (is_empty c.sasl_user && (is_empty c.pass_raw && hub.auth_enabled))
                (λ _. replied hub c _ _ v) (λ _. bind_id-IsVouched c msg.params v)))

  -- what a command leaves, if it leaves the session to the rest of the handler
  After : Option Client → Type 0
  After none = Unit
  After (some c) = IsVouched hub c

  pre_command-IsVouched :
      (c : Client) (msg : Message) → IsVouched hub c → After (pre_command hub c msg)
  unfolding pre_command After numeric
  pre_command-IsVouched c msg v =
      if_cases After (str_eq msg.command (codes "CAP")) (λ _. handle_cap-IsVouched c msg v)
        (λ _.
          if_cases After (str_eq msg.command (codes "PASS"))
            (λ _. SameLogin-IsVouched (set_pass-SameLogin c msg.params) v)
            (λ _.
              if_cases After (str_eq msg.command (codes "NICK"))
                (λ _. SameLogin-IsVouched (set_nick-SameLogin hub c msg.params) v)
                (λ _.
                  if_cases After (str_eq msg.command (codes "USER"))
                    (λ _. SameLogin-IsVouched (set_user-SameLogin c msg.params) v)
                    (λ _.
                      if_cases After (str_eq msg.command (codes "AUTHENTICATE"))
                        (λ _. handle_sasl-IsVouched c msg v)
                        (λ _.
                          if_cases After (str_eq msg.command (codes "BOUNCER"))
                            (λ _. handle_bouncer-IsVouched c msg v)
                            (λ _.
                              if_cases After (str_eq msg.command (codes "PING"))
                                (λ _. SameLogin-IsVouched (pong-SameLogin c msg.params) v)
                                (λ _.
                                  if_cases After (str_eq msg.command (codes "QUIT")) (λ _. tt)
                                    (λ _. replied hub c _ _ v))))))))

  -- Handling a message before the registration keeps the session in order.
  pub handle_pre_registration-IsVouched :
      (c : Client) (msg : Message)
      → IsVouched hub c
      → IsVouched hub (handle_pre_registration hub c msg)
  unfolding handle_pre_registration After
  handle_pre_registration-IsVouched c msg v = elim (Option-cases (pre_command hub c msg)) [
    | inl e ↦ rw (e, handle_pre_registration) (SameLogin-IsVouched (destroy-SameLogin c) v)
    | inr (d, e) ↦
        rw (e, handle_pre_registration)
          (maybe_finish-IsVouched hub d (subst After e (pre_command-IsVouched c msg v)))
  ]
