-- ===== src/Web/Examples.antt =====
-- A request through a proxy at `p`.
use stugan.Base.{true, not, ◌&&◌, if◌then◌else◌, some, [], codes, str_eq, ◌≡◌, refl, arith}
use stugan.Go.Space.{trim_space}
use stugan.Web.ClientIp.{Net, is_blank, trusted_proxy, client_ip, client_ip_lem}

abbrev net : Net
net = record { host_of = λ _. some (codes "p"); is_ip = λ _. true; in_ranges = str_eq (codes "p") }

client_ip_lem_example : client_ip net (codes "p:1") [] (codes "evil,me") ≡ (
    if not (is_blank (trim_space [])) && net.is_ip (trim_space [])
    then trim_space []
    else trim_space (codes "me"))
unfolding trim_space is_blank trusted_proxy str_eq
client_ip_lem_example =
    client_ip_lem net (codes "p:1") (codes "p") [] (codes "evil") (codes "me") refl refl
      (ground arith) (λ same. cc) refl
