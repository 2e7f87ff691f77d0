-- ===== src/Cluster/Security/Exact.antt =====
-- The table of failed handshakes against the list of all failures of every bucket.
use librtmp2_server.Base.{
  ℕ, ◌≡◌, ◌≤◌, refl, sym, ap, ◌∙◌, subst, inl, inr, arith, Bool, true, false, List, [], ◌∷◌, ◌++◌,
  lookup, remove, keep, length, map_or, leb, IpAddr, ip_eq, ◌==◌, Distinct, lookup-insert,
  lookup-remove, Bool-cases, Option-cases, keep-append, one_of, Among, Among-insert, room-Among,
}
use mathlib.Core.Path.{ap₂}
use librtmp2_server.Cluster.Security.Failures.{
  cluster_auth_max_failures, max_tracked_cluster_auth_ips, Failures, is_recent,
  active_cluster_auth_failure_count, purge_expired_cluster_auth_failures, cluster_auth_bucket,
  cluster_auth_rate_limited, push_failure, record_cluster_auth_failure, clear_cluster_auth_failures,
}
use librtmp2_server.Cluster.Security.Limited.{
  Call, asking, recording, clearing, run_call, run_calls, Records, set_records, spec_call,
  spec_calls, IsTracked, record_at-push, run_call-IsTracked,
}
use librtmp2_server.Cluster.Security.Recorded.{
  recent, keep-later, purge-Distinct, purge-entries, purge-held,
}

-- The table and the list have the same recent failures, now and later.
abbrev pub Agrees : ℕ → Failures → Records → Type 0
Agrees now g r = (ip : IpAddr) → recent now ip g ≡ keep (is_recent now) (r ip)

keep_twice :
    (now : ℕ) (ts : List ℕ)
    → keep (is_recent now) (keep (is_recent now) ts) ≡ keep (is_recent now) ts
keep_twice now ts = keep-later now now ts (omega arith)

recent-keep :
    (now : ℕ) (ip : IpAddr) (g : Failures)
    → recent now ip g ≡ keep (is_recent now) (map_or (lookup ip g) [] (λ ts. ts))
unfolding keep
recent-keep now ip g = ground arith

Agrees-later :
    (before now : ℕ) (g : Failures) (r : Records)
    → before ≤ now
    → Agrees before g r
    → Agrees now g r
Agrees-later before now g r h agrees ip =
    recent-keep now ip g
    ∙ sym (keep-later before now _ h)
    ∙ ap (keep (is_recent now)) (sym (recent-keep before ip g) ∙ agrees ip)
    ∙ keep-later before now (r ip) h

Agrees-purge :
    (now : ℕ) (g : Failures) (r : Records)
    → Distinct g
    → Agrees now g r
    → Agrees now (purge_expired_cluster_auth_failures g now) r
Agrees-purge now g r d agrees ip =
    recent-keep now ip _
    ∙ ap (keep (is_recent now)) (purge-entries now g d ip ∙ agrees ip)
    ∙ keep_twice now (r ip)

Agrees-push :
    (now : ℕ) (ip : IpAddr) (g : Failures) (r : Records)
    → Agrees now g r
    → Agrees now (push_failure ip now g) (set_records ip (r ip ++ now ∷ []) r)
unfolding push_failure
Agrees-push now ip g r agrees j = elim (Bool-cases (ip == j)) [
  | inl same ↦
      let es = map_or (lookup ip g) [] (λ ts. ts) in
      ground (
        arith,
        same,
        lookup-insert j ip (es ++ now ∷ []) g,
        keep-append (is_recent now) es (now ∷ []),
        keep-append (is_recent now) (r ip) (now ∷ []),
        recent-keep now ip g,
        agrees ip,
      )
  | inr other ↦ ground (
    arith,
    other,
    lookup-insert j ip (map_or (lookup ip g) [] (λ ts. ts) ++ now ∷ []) g,
    agrees j,
  )
]

Agrees-clear :
    (now : ℕ) (ip : IpAddr) (g : Failures) (r : Records)
    → Agrees now g r
    → Agrees now (remove ip g) (set_records ip [] r)
unfolding keep
Agrees-clear now ip g r agrees j = ground (arith, lookup-remove j ip g, agrees j)

-- The instant of a call, where it has one.
abbrev pub Later : ℕ → Call → Type 0
Later before (asking peer now) = before ≤ now
Later before (recording peer now late) = before ≤ now
Later before (clearing peer) = Unit

abbrev pub at_call : ℕ → Call → ℕ
at_call before (asking peer now) = now
at_call before (recording peer now late) = now
at_call before (clearing peer) = before

abbrev pub InList : List IpAddr → Call → Type 0
InList ips (asking peer now) = Unit
InList ips (recording peer now late) = one_of (cluster_auth_bucket peer) ips ≡ true
InList ips (clearing peer) = Unit

-- The clock does not go back, and the buckets that fail are among those of a list.
abbrev pub Orderly : List IpAddr → ℕ → List Call → Type 0
Orderly ips before [] = Unit
Orderly ips before (c ∷ cs) = Later before c × InList ips c × Orderly ips (at_call before c) cs

-- Keys of a table after a purge.
Among-purge :
    (ips : List IpAddr) (now : ℕ) (g : Failures)
    → Distinct g
    → Among ips g
    → Among ips (purge_expired_cluster_auth_failures g now)
Among-purge ips now g d among ip there = among ip (elim (Option-cases (lookup ip g)) [
  | inl absent ↦ absurd (ground (arith, absent, there, purge-held now g d ip))
  | inr (ts, found) ↦ rw found refl
])

Among-push :
    (ips : List IpAddr) (ip : IpAddr) (now : ℕ) (g : Failures)
    → one_of ip ips ≡ true
    → Among ips g
    → Among ips (push_failure ip now g)
unfolding push_failure
Among-push ips ip now g one among = Among-insert ips ip _ g one among

-- The test reads the recent failures of the bucket.
test_recent :
    (now : ℕ) (ip : IpAddr) (g : Failures)
    → map_or
        (lookup ip g)
        false
        (λ ts. leb cluster_auth_max_failures (active_cluster_auth_failure_count ts now))
      ≡ leb cluster_auth_max_failures (length (recent now ip g))
unfolding active_cluster_auth_failure_count
test_recent now ip g = elim (Option-cases (lookup ip g)) [
  | inl absent ↦ rw absent refl
  | inr (ts, there) ↦ rw there refl
]

-- The table, the answer and the keys after one call.
abbrev Exact : List IpAddr → ℕ → Failures × Bool → Records × Bool → Type 0
Exact ips now got want = Agrees now got.0 want.0 × (got.1 ≡ want.1) × Among ips got.0

run_call-Exact :
    (ips : List IpAddr) (c : Call) (before : ℕ) (g : Failures) (r : Records)
    → length ips ≤ max_tracked_cluster_auth_ips
    → Later before c
    → InList ips c
    → IsTracked g
    → Among ips g
    → Agrees before g r
    → Exact ips (at_call before c) (run_call c g) (spec_call c r)
unfolding run_call spec_call cluster_auth_rate_limited record_cluster_auth_failure
    clear_cluster_auth_failures
run_call-Exact ips (asking peer now) before g r few h keys tracked among agrees =
    let now_agrees = Agrees-purge now g r tracked.distinct (Agrees-later before now g r h agrees) in
    (
      now_agrees,
      test_recent now (cluster_auth_bucket peer) _
          ∙ ap (λ ts. leb cluster_auth_max_failures (length ts))
              (now_agrees (cluster_auth_bucket peer)),
      Among-purge ips now g tracked.distinct among,
    )
run_call-Exact ips (recording peer now late) before g r few h keys tracked among agrees =
    let ip = cluster_auth_bucket peer in
    let kept = purge_expired_cluster_auth_failures g now in
    let inside = Among-purge ips now g tracked.distinct among in
    let room =
      room-Among ips max_tracked_cluster_auth_ips ip [] kept few keys
        (purge-Distinct now g tracked.distinct) inside in
    subst (λ (x : Failures). Exact ips now (x, false) (set_records ip (r ip ++ now ∷ []) r, false))
      (sym (record_at-push ip now late kept room))
      (
        Agrees-push now ip kept r
            (Agrees-purge now g r tracked.distinct (Agrees-later before now g r h agrees)),
        refl,
        Among-push ips ip now kept keys inside,
      )
run_call-Exact ips (clearing peer) before g r few h keys tracked among agrees = (
  Agrees-clear before (cluster_auth_bucket peer) g r agrees,
  refl,
  λ ip there. among ip (ground (arith, there, lookup-remove ip (cluster_auth_bucket peer) g)),
)

run_calls-Exact :
    (ips : List IpAddr) (cs : List Call) (before : ℕ) (g : Failures) (r : Records)
    → length ips ≤ max_tracked_cluster_auth_ips
    → Orderly ips before cs
    → IsTracked g
    → Among ips g
    → Agrees before g r
    → (run_calls cs g).1 ≡ (spec_calls cs r).1
unfolding run_calls spec_calls
run_calls-Exact ips [] before g r few h tracked among agrees = refl
run_calls-Exact ips (c ∷ cs) before g r few h tracked among agrees =
    let step = run_call-Exact ips c before g r few h.0 h.1 tracked among agrees in
    ap₂ ◌∷◌ step.1 (
      run_calls-Exact ips cs (at_call before c) _ _ few h.2 (run_call-IsTracked c g tracked) step.2
        step.0)

-- Let the clock not go back, and let at most 10,000 buckets fail, where an IPv6 network of 64 bits
-- and an IPv4 address are one bucket. From the empty table, whatever handshakes are tried: a peer
-- is refused exactly if its bucket has failed ten times in the last 60 seconds since it was last
-- cleared. So no failure is forgotten while it counts, and nobody is refused for another bucket.
pub run_calls-Limited :
    (ips : List IpAddr) (cs : List Call)
    → length ips ≤ max_tracked_cluster_auth_ips
    → Orderly ips 0 cs
    → (run_calls cs []).1 ≡ (spec_calls cs (λ ip. [])).1
unfolding lookup keep
run_calls-Limited ips cs few h =
    run_calls-Exact ips cs 0 [] (λ ip. []) few h (record { distinct = tt; few = omega arith })
      (λ ip there. absurd (ground arith)) (λ ip. refl)
