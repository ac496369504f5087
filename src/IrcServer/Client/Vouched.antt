-- ===== src/IrcServer/Client/Vouched.antt =====
-- Nobody is registered whom the password check did not let in.
pub mod Steps
pub mod Commands
pub mod Serve
use stugan.Base.{
  ℕ, Bool, true, false, not, ◌&&◌, ◌||◌, Option, none, some, List, [], ◌∷◌, ◌++◌, Bytes, codes,
  if◌then◌else◌, str_eq, ◌≡◌, refl, sym, ap, ◌∙◌, arith, Bool-cases, Option-cases, if_cases, inl,
  inr,
}
use stugan.Go.Strings.{is_empty}
use stugan.IrcServer.Client.{
  Hub, Tenant, Network, Client, write, push, destroy, reply, numeric, close_with_error,
}
use stugan.IrcServer.Client.Sasl.{vouched_user}
use stugan.IrcServer.Client.Register.{fail_registration, bouncer_allowed}

-- A name and a secret that log the user in.
abbrev pub Vouched : Hub → Bytes → Bytes → Type 0
Vouched hub addr user =
    (name : Bytes) × (secret : Bytes) × (vouched_user hub addr name secret ≡ some user)

-- The account is there and takes IRC clients.
abbrev pub Allowed : Hub → Bytes → Type 0
Allowed hub user = (t : Tenant) × (hub.tenant user ≡ some t) × (bouncer_allowed t ≡ true)

pub record IsVouched (hub : Hub) (c : Client) : Type 0 where
  pub sasl_vouched : is_empty c.sasl_user ≡ false → Vouched hub c.remote_addr c.sasl_user
  pub user_vouched : c.registered ≡ true → Vouched hub c.remote_addr c.user_id
  pub user_allowed : c.registered ≡ true → Allowed hub c.user_id

-- The fields that this is about.
pub record SameLogin (c d : Client) : Type 0 where
  pub same_addr : d.remote_addr ≡ c.remote_addr
  pub same_sasl : d.sasl_user ≡ c.sasl_user
  pub same_user : d.user_id ≡ c.user_id
  pub same_reg : d.registered ≡ c.registered

pub SameLogin-IsVouched :
    {hub : Hub} {c d : Client} → SameLogin c d → IsVouched hub c → IsVouched hub d
SameLogin-IsVouched {hub} {c} {d} k v = record {
  sasl_vouched = rw (k.same_addr, k.same_sasl) (v.sasl_vouched);
  user_vouched = rw (k.same_addr, k.same_user, k.same_reg) (v.user_vouched);
  user_allowed = rw (k.same_user, k.same_reg) (v.user_allowed);
}

pub SameLogin-trans : {c d e : Client} → SameLogin c d → SameLogin d e → SameLogin c e
SameLogin-trans a b = record {
  same_addr = b.same_addr ∙ a.same_addr;
  same_sasl = b.same_sasl ∙ a.same_sasl;
  same_user = b.same_user ∙ a.same_user;
  same_reg = b.same_reg ∙ a.same_reg;
}

pub write-SameLogin : (c : Client) (l : Bytes) → SameLogin c (write c l)
unfolding write
write-SameLogin c l = ground arith

pub reply-SameLogin : (c : Client) (code : Bytes) (ps : List Bytes) → SameLogin c (reply c code ps)
unfolding reply
reply-SameLogin c code ps = write-SameLogin c _

pub destroy-SameLogin : (c : Client) → SameLogin c (destroy c)
unfolding destroy
destroy-SameLogin c = ground arith

pub close_with_error-SameLogin : (c : Client) (why : Bytes) → SameLogin c (close_with_error c why)
unfolding close_with_error push
close_with_error-SameLogin c why =
    SameLogin-trans
      (if_cases (SameLogin c) c.closed
        (λ _. record { same_addr = refl; same_sasl = refl; same_user = refl; same_reg = refl })
        (λ _.
          if_cases (SameLogin c) c.room
            (λ _. record { same_addr = refl; same_sasl = refl; same_user = refl; same_reg = refl })
            (λ _. destroy-SameLogin c)))
      (destroy-SameLogin _)

pub fail_registration-SameLogin :
    (c : Client) (text : Bytes) → SameLogin c (fail_registration c text)
unfolding fail_registration
fail_registration-SameLogin c text =
    SameLogin-trans (reply-SameLogin c _ _) (close_with_error-SameLogin _ text)
