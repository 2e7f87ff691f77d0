-- ===== src/Cluster/Security/Failures.antt =====
-- The table of failed handshakes, by the address of the peer.
use librtmp2_server.Base.{
  ℕ, ◌-◌, ◌*◌, ◌/◌, ◌^◌, Bool, true, false, not, ◌&&◌, List, [], ◌∷◌, ◌++◌, Map, lookup, insert,
  remove, keep, length, map_or, is_some, if◌then◌else◌, ltb, leb, nat_eqb, IpAddr, v4, v6, ip_eq,
  to_canonical,
}

abbrev pub cluster_auth_max_failures : ℕ
cluster_auth_max_failures = 10

abbrev pub cluster_auth_failure_window : ℕ
cluster_auth_failure_window = 60 * 1_000_000_000

abbrev pub max_tracked_cluster_auth_ips : ℕ
max_tracked_cluster_auth_ips = 10_000

-- `CLUSTER_AUTH_FAILURES`.
abbrev pub Failures : Type 0
Failures = Map IpAddr (List ℕ)

unfoldable pub is_recent : ℕ → ℕ → Bool
is_recent now t = if leb t now then ltb (now - t) cluster_auth_failure_window else true

unfoldable pub active_cluster_auth_failure_count : List ℕ → ℕ → ℕ
active_cluster_auth_failure_count entries now = length (keep (is_recent now) entries)

unfoldable pub retain_recent : ℕ → Failures → Failures
retain_recent now [] = []
retain_recent now ((ip, entries) ∷ g) = (ip, keep (is_recent now) entries) ∷ retain_recent now g

unfoldable pub purge_expired_cluster_auth_failures : Failures → ℕ → Failures
purge_expired_cluster_auth_failures g now =
    keep (λ (x : IpAddr × List ℕ). not (nat_eqb (length x.1) 0)) (retain_recent now g)

unfoldable pub last_failure : ℕ → List ℕ → ℕ
last_failure late [] = late
last_failure late (t ∷ ts) = last_failure t ts

-- The first of the addresses whose last failure is the oldest.
unfoldable pub oldest_ip_from : ℕ → IpAddr × List ℕ → Failures → IpAddr
oldest_ip_from late best [] = best.0
oldest_ip_from late best (x ∷ g) =
    oldest_ip_from late (if ltb (last_failure late x.1) (last_failure late best.1) then x else best)
      g

unfoldable pub remove_oldest_of : ℕ → Failures → Failures → Failures × Bool
remove_oldest_of late [] g = (g, false)
remove_oldest_of late (x ∷ candidates) g = (remove (oldest_ip_from late x candidates) g, true)

unfoldable pub evict_oldest_eligible_cluster_auth_ip : Failures → ℕ → ℕ → Failures × Bool
evict_oldest_eligible_cluster_auth_ip g now late =
    remove_oldest_of late
      (keep
        (λ (x : IpAddr × List ℕ).
          ltb (active_cluster_auth_failure_count x.1 now) cluster_auth_max_failures)
        g)
      g

unfoldable pub evict_oldest_cluster_auth_ip : Failures → ℕ → Failures × Bool
evict_oldest_cluster_auth_ip g now = remove_oldest_of now g g

-- The four upper segments of an IPv6 address.
unfoldable pub upper_half : IpAddr → IpAddr
upper_half (v4 a) = v4 a
upper_half (v6 a) = v6 (a / 2 ^ 64 * 2 ^ 64)

unfoldable pub cluster_auth_bucket : IpAddr → IpAddr
cluster_auth_bucket peer = upper_half (to_canonical peer)

unfoldable pub cluster_auth_rate_limited : IpAddr → ℕ → Failures → Failures × Bool
cluster_auth_rate_limited peer now g =
    let recent = purge_expired_cluster_auth_failures g now in
    (
      recent,
      map_or (lookup (cluster_auth_bucket peer) recent) false (λ entries.
          leb cluster_auth_max_failures (active_cluster_auth_failure_count entries now)),
    )

-- Room for a bucket: the second eviction is tried only if the first one fails.
unfoldable pub evict_some_ip : Failures → ℕ → ℕ → Failures × Bool
evict_some_ip g now late =
    let (after, evicted) = evict_oldest_eligible_cluster_auth_ip g now late in
    if evicted then (after, true) else evict_oldest_cluster_auth_ip g now

-- `guard.entry(peer).or_default().push(now)`.
unfoldable pub push_failure : IpAddr → ℕ → Failures → Failures
push_failure ip now g = insert ip (map_or (lookup ip g) [] (λ entries. entries) ++ now ∷ []) g

unfoldable pub record_at : IpAddr → ℕ → ℕ → Failures → Failures
record_at ip now late g =
    let (after, evicted) = evict_some_ip g now late in
    if not (is_some (lookup ip g)) && leb max_tracked_cluster_auth_ips (length g)
    then (if evicted then push_failure ip now after else after)
    else push_failure ip now g

unfoldable pub record_cluster_auth_failure : IpAddr → ℕ → ℕ → Failures → Failures
record_cluster_auth_failure peer now late g =
    record_at (cluster_auth_bucket peer) now late (purge_expired_cluster_auth_failures g now)

unfoldable pub clear_cluster_auth_failures : IpAddr → Failures → Failures
clear_cluster_auth_failures peer g = remove (cluster_auth_bucket peer) g
