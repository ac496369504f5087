-- ===== src/Core/Bouncer/Examples.antt =====
-- A connection to soju with one network on it.
use stugan.Base.{
  ℕ, zero, suc, All, length, ap, ◌≤◌, true, false, some, [], ◌∷◌, Bytes, codes, ◌≡◌, refl,
  if◌then◌else◌, lt_i64, arith,
}
use stugan.Go.Space.{trim_space}
use stugan.Core.Bouncer.{
  BouncerNetwork, only_id, cap_bouncer_networks, parse_bouncer_attrs, added_attrs,
  merge_bouncer_attrs, apply_bouncer, find_bouncer,
}
use stugan.Core.Bouncer.Attrs.{parse-added}
use stugan.Core.Bouncer.Merged.{IsMerged, merge-IsMerged}
use stugan.Core.Bouncer.Listed.{found_after, find-apply_bouncer}
use stugan.Core.Network.{NetworkParams, Conn, Engine, network_of}
use stugan.Core.Bouncer.Commands.{bouncer_open, list_bouncer_networks, bouncer_add, bouncer_delete}
use stugan.Core.Bouncer.Commands.Adding.{Either}
use stugan.Core.Bouncer.Commands.Outcomes.{
  IsOpened, CannotOpen, bouncer_open-Either, OnlyToBouncer, only_to_bouncer,
}

-- numerals in base one
abbrev itoa : ℕ → Bytes
itoa zero = []
itoa (suc n) = b'1' ∷ itoa n

abbrev atoi : Bytes → ℕ
atoi = length

ones-IsDigit : (n : ℕ) → All (λ c. (b'0' ≤ c) × (c ≤ b'9')) (itoa n)
ones-IsDigit zero = tt
ones-IsDigit (suc n) = ((omega arith, omega arith), ones-IsDigit n)

length-ones : (n : ℕ) → atoi (itoa n) ≡ n
length-ones zero = refl
length-ones (suc n) = ap suc (length-ones n)

abbrev libera : BouncerNetwork
libera = record (only_id (codes "1")) {
  name = codes "libera";
  host = codes "irc.libera.chat";
  port = 3;
  tls = true;
  nick = codes "al ex";
}

abbrev control : NetworkParams
control = record {
  id = codes "soju";
  name = codes "soju";
  addr = codes "bnc.example:6697";
  fallbacks = [];
  tls = true;
  insecure = false;
  nick = codes "me";
  user = codes "me";
  realname = codes "me";
  sasl_user = codes "alex@laptop";
  sasl_pass = codes "pw";
  channels = codes "#x" ∷ [];
  monitor = [];
  channel_keys = [];
  server_pass = [];
  perform = [];
  sasl_external = false;
  sasl_scram = false;
  cert_pem = [];
  pos = 0;
  buffer_order = [];
  join_hold_timeout = 0;
}

abbrev conn : Conn
conn = record { caps = cap_bouncer_networks ∷ []; takes = λ _. true }

abbrev soju : Engine
soju = record {
  networks = record (network_of control) { bouncer = libera ∷ [] } ∷ [];
  conns = (codes "soju", conn) ∷ [];
  dial = some (λ _. some conn);
}

merge-IsMerged_example :
    IsMerged libera
      (record (only_id (codes "1")) { state = codes "connected" })
      (codes "state" ∷ [])
      (merge_bouncer_attrs libera
        (record (only_id (codes "1")) { state = codes "connected" })
        (codes "state" ∷ []))
merge-IsMerged_example =
    merge-IsMerged libera (record (only_id (codes "1")) { state = codes "connected" })
      (codes "state" ∷ [])

find-apply_bouncer_example :
    find_bouncer
      (codes "1")
      (apply_bouncer (libera ∷ []) (some (only_id (codes "1"))) (some (codes "name" ∷ [])) [])
    ≡ found_after
        (libera ∷ [])
        (some (only_id (codes "1")))
        (some (codes "name" ∷ []))
        []
        (codes "1")
find-apply_bouncer_example =
    find-apply_bouncer (libera ∷ []) (some (only_id (codes "1"))) (some (codes "name" ∷ [])) []
      (codes "1")

bouncer_open-Either_example :
    Either soju
      (IsOpened soju (codes "soju") (codes "1"))
      (CannotOpen soju (codes "soju") (codes "1"))
      (bouncer_open soju (codes "soju") (codes "1"))
bouncer_open-Either_example = bouncer_open-Either soju (codes "soju") (codes "1")

only_to_bouncer_example :
    OnlyToBouncer soju (codes "soju") (list_bouncer_networks soju (codes "soju"))
    × OnlyToBouncer soju (codes "soju") (bouncer_add itoa soju (codes "soju") libera (codes "pw")).0
    × OnlyToBouncer soju (codes "soju") (bouncer_delete soju (codes "soju") (codes "1")).0
only_to_bouncer_example = only_to_bouncer itoa soju (codes "soju") libera (codes "pw") (codes "1")

parse-added_example :
    (parse_bouncer_attrs atoi (codes "2") (added_attrs itoa libera (codes "pw;"))).0 ≡ record {
      id = codes "2";
      name = trim_space (codes "libera");
      host = trim_space (codes "irc.libera.chat");
      port = if lt_i64 0 3 then 3 else 0;
      tls = true;
      nick = trim_space (codes "al ex");
      state = [];
      error = [];
    }
parse-added_example =
    parse-added atoi itoa (codes "2") libera (codes "pw;")
      (record { digits = λ n _. ones-IsDigit n; back = λ n _. length-ones n })
