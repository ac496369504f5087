-- ===== src/Web/RateLimit.antt =====
-- internal/server/ratelimit.go: the limiter of failed logins. The map from addresses to the times
-- of failures is a list of entries, in the order in which Go happens to range over the map.
pub mod Bound
pub mod Window
mod Examples
use stugan.Base.{
  ℕ, suc, ◌+◌, ◌-◌, Bool, true, false, ◌&&◌, ◌||◌, Option, none, some, List, [], ◌∷◌, ◌++◌, map,
  Bytes, ltb, leb, ◌==◌, not, if◌then◌else◌, str_eq, length,
}

abbrev pub Hits : Type 0
Hits = List (Bytes × List ℕ)

-- Times are numbers on a common scale, `window` a number of its units.
pub record AuthRateLimit : Type 0 where
  pub hits : Hits
  pub window : ℕ
  pub max : ℕ
  pub max_ips : ℕ

abbrev default_rate_limit_ips : ℕ
default_rate_limit_ips = 10000

-- `newAuthRateLimit`
pub new_auth_rate_limit : ℕ → ℕ → List ℕ → AuthRateLimit
new_auth_rate_limit window max [] = record {
  hits = [];
  window = window;
  max = max;
  max_ips = default_rate_limit_ips;
}
new_auth_rate_limit window max (n ∷ ns) = record {
  hits = [];
  window = window;
  max = max;
  max_ips = if ltb 0 n then n else default_rate_limit_ips;
}

-- `hits[ip]`: empty for a missing key
unfoldable pub bucket : Hits → Bytes → List ℕ
bucket [] ip = []
bucket ((k, a) ∷ hits) ip = if str_eq k ip then a else bucket hits ip

unfoldable pub exists : Hits → Bytes → Bool
exists [] ip = false
exists ((k, a) ∷ hits) ip = str_eq k ip || exists hits ip

-- `delete(hits, ip)`
unfoldable pub delete : Hits → Bytes → Hits
delete [] ip = []
delete ((k, a) ∷ hits) ip = let rest = delete hits ip in if str_eq k ip then rest else (k, a) ∷ rest

-- `hits[ip] = a`
unfoldable pub assign : Hits → Bytes → List ℕ → Hits
assign [] ip a = (ip, a) ∷ []
assign ((k, b) ∷ hits) ip a =
    let rest = assign hits ip a in if str_eq k ip then (k, a) ∷ hits else (k, b) ∷ rest

-- `a[i:]` for the first `i` at which the time is not before the cutoff
unfoldable pub drop_stale : ℕ → List ℕ → List ℕ
drop_stale cutoff [] = []
drop_stale cutoff (t ∷ a) = let rest = drop_stale cutoff a in if ltb t cutoff then rest else t ∷ a

-- What becomes of the bucket `a` when `kept` is left of it.
store : Hits → Bytes → List ℕ → List ℕ → Hits
store hits ip a [] = delete hits ip
store hits ip a (t ∷ kept) =
    if ltb (length (t ∷ kept)) (length a) then assign hits ip (t ∷ kept) else hits

-- `pruneLocked`
unfoldable pub prune_locked : Hits → Bytes → ℕ → Hits
unfolding store
prune_locked hits ip cutoff = store hits ip (bucket hits ip) (drop_stale cutoff (bucket hits ip))

-- `pruneAllLocked`: the keys are those of the map when the loop starts.
prune_each : List Bytes → Hits → ℕ → Hits
prune_each [] hits cutoff = hits
prune_each (ip ∷ ips) hits cutoff = prune_each ips (prune_locked hits ip cutoff) cutoff

abbrev key_of : Bytes × List ℕ → Bytes
key_of e = e.0

unfoldable pub prune_all_locked : Hits → ℕ → Hits
unfolding prune_each
prune_all_locked hits cutoff = prune_each (map key_of hits) hits cutoff

last_time : ℕ → List ℕ → ℕ
last_time t [] = t
last_time t (u ∷ a) = last_time u a

pub is_blank : Bytes → Bool
is_blank [] = true
is_blank (c ∷ s) = false

-- The loop of `evictOldestLocked` over the entries, with `oldestIP`, `oldest` and the map.
find_oldest : Hits → Bytes → ℕ → Hits → Bytes × Hits
unfolding last_time is_blank
find_oldest [] oldest_ip oldest hits = (oldest_ip, hits)
find_oldest ((ip, []) ∷ es) oldest_ip oldest hits = find_oldest es oldest_ip oldest (delete hits ip)
find_oldest ((ip, t ∷ a) ∷ es) oldest_ip oldest hits =
    let last = last_time t a in
    elim (is_blank oldest_ip || ltb last oldest) [
      | true ↦ find_oldest es ip last hits
      | false ↦ find_oldest es oldest_ip oldest hits
    ]

-- `evictOldestLocked`
unfoldable pub evict_oldest_locked : Hits → Hits
unfolding find_oldest
evict_oldest_locked hits =
    let (oldest_ip, left) = find_oldest hits [] 0 hits in
    if is_blank oldest_ip then left else delete left oldest_ip

-- `allow` on a limiter; the clock is an argument. A nil limiter allows everything.
unfoldable pub allow : AuthRateLimit → Bytes → ℕ → AuthRateLimit × Bool
allow r ip now =
    let hits = prune_locked r.hits ip (now - r.window) in
    (record r { hits = hits }, ltb (length (bucket hits ip)) r.max)

pub allow_any : Option AuthRateLimit → Bytes → ℕ → Option AuthRateLimit × Bool
allow_any none ip now = (none, true)
allow_any (some r) ip now = let (r', ok) = allow r ip now in (some r', ok)

-- `fail`: room is made only for an address that has no bucket.
make_room : AuthRateLimit → Hits → Bytes → ℕ → Hits
make_room r hits ip now =
    if not (exists hits ip) && leb r.max_ips (length hits)
    then (let fresh = prune_all_locked hits (now - r.window) in
        if leb r.max_ips (length fresh) then evict_oldest_locked fresh else fresh)
    else hits

unfoldable pub fail : AuthRateLimit → Bytes → ℕ → AuthRateLimit
unfolding make_room
fail r ip now =
    let hits = make_room r (prune_locked r.hits ip (now - r.window)) ip now in
    record r { hits = assign hits ip (bucket hits ip ++ now ∷ []) }
