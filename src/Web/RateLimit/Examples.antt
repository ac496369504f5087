-- ===== src/Web/RateLimit/Examples.antt =====
-- A limiter for two addresses, and the theorems at it.
use stugan.Base.{
  [], ◌∷◌, ◌++◌, ◌-◌, ◌≤◌, codes, length, ltb, if◌then◌else◌, str_eq, ◌≡◌, refl, arith,
}
use stugan.Web.RateLimit.{
  AuthRateLimit, is_blank, assign, exists, delete, prune_all_locked, bucket, drop_stale,
  prune_locked, allow, fail, evict_oldest_locked,
}
use stugan.Web.RateLimit.Bound.{Named, fail-bounded}
use stugan.Web.RateLimit.Window.{count_recent, allow_lem, fail_lem}

abbrev small : AuthRateLimit
small = record {
  hits = (codes "a", 10 ∷ (50 ∷ [])) ∷ ((codes "b", 40 ∷ []) ∷ []);
  window = 30;
  max = 2;
  max_ips = 2;
}

-- The map is full: the address that failed longest ago makes room.
third_address :
    (fail small (codes "c") 60).hits ≡ (codes "a", 50 ∷ []) ∷ ((codes "c", 60 ∷ []) ∷ [])
unfolding fail assign exists prune_locked drop_stale bucket str_eq delete prune_all_locked
    evict_oldest_locked
third_address = refl

fail-bounded_example :
    (length (fail small (codes "c") 60).hits ≤ 2) × Named (fail small (codes "c") 60).hits
unfolding is_blank
fail-bounded_example =
    fail-bounded small (codes "c") 60 refl (omega arith) (ground arith) (omega arith)

allow_lem_example :
    (allow small (codes "a") 60).1 ≡ ltb (count_recent (60 - 30) (bucket small.hits (codes "a"))) 2
unfolding bucket
allow_lem_example = allow_lem small (codes "a") 60 (ground arith)

fail_lem_example : bucket (fail (record small { max_ips = 3 }) (codes "a") 60).hits (codes "b") ≡ (
    if str_eq (codes "a") (codes "b")
    then drop_stale (60 - 30) (bucket small.hits (codes "a")) ++ 60 ∷ []
    else bucket small.hits (codes "b"))
unfolding prune_locked drop_stale bucket str_eq assign
fail_lem_example = fail_lem (record small { max_ips = 3 }) (codes "a") (codes "b") 60 (omega arith)
