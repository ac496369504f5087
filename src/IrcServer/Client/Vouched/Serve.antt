-- ===== src/IrcServer/Client/Vouched/Serve.antt =====
-- The loop of `serve` up to the registration, and who may be registered.
use stugan.Base.{Bool, true, List, [], ◌∷◌, Bytes, if◌then◌else◌, ◌≡◌, arith, if_cases}
use stugan.IrcServer.Parse.{Message}
use stugan.IrcServer.Client.{Hub, Client, new_client}
use stugan.IrcServer.Client.Register.Commands.{handle_pre_registration}
use stugan.IrcServer.Client.Vouched.{Vouched, Allowed, IsVouched}
use stugan.IrcServer.Client.Vouched.Commands.{handle_pre_registration-IsVouched}

-- The messages of a client, one after the other, until it is registered.
unfoldable pub serve : Hub → Client → List Message → Client
serve hub c [] = c
serve hub c (m ∷ ms) = serve hub (if c.registered then c else handle_pre_registration hub c m) ms

serve-IsVouched :
    (hub : Hub) (c : Client) (ms : List Message) → IsVouched hub c → IsVouched hub (serve hub c ms)
unfolding serve
serve-IsVouched hub c [] v = v
serve-IsVouched hub c (m ∷ ms) v =
    serve-IsVouched hub (if c.registered then c else handle_pre_registration hub c m) ms (
      if_cases (IsVouched hub) c.registered (λ _. v)
        (λ _. handle_pre_registration-IsVouched hub c m v))

-- Whatever a new client sends, in whatever order: if it is registered, then it is registered as a
-- user whom some name and secret log in from its address, in the mode that the server runs in, and
-- whose account is there and takes IRC clients.
pub serve-registered :
    (hub : Hub) (addr : Bytes) (room : Bool) (ms : List Message)
    → (serve hub (new_client addr room) ms).registered ≡ true
    → Vouched hub
        (serve hub (new_client addr room) ms).remote_addr
        (serve hub (new_client addr room) ms).user_id
      × Allowed hub (serve hub (new_client addr room) ms).user_id
unfolding new_client
serve-registered hub addr room ms done =
    let v = serve-IsVouched hub (new_client addr room) ms record {
      sasl_vouched = λ e. absurd (ground (arith, e));
      user_vouched = λ e. absurd (ground (arith, e));
      user_allowed = λ e. absurd (ground (arith, e));
    } in
    (v.user_vouched done, v.user_allowed done)
