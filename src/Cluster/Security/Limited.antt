-- ===== src/Cluster/Security/Limited.antt =====
-- The calls on the table of failed handshakes, what they promise, and its size.
use librtmp2_server.Base.{
  ℕ, ◌≡◌, ◌<◌, ◌≤◌, refl, inl, inr, arith, Bool, true, false, none, List, [], ◌∷◌, ◌++◌, lookup,
  keep, length, map_or, is_some, if◌then◌else◌, if-elim, leb, IpAddr, ip_eqb_iff, ip_eq, ◌==◌,
  Distinct, lookup-remove, lookup-keep-none, insert-Distinct, remove-Distinct, Bool-cases,
  Option-cases, length-insert, length-remove-le, length-remove-lt,
}
use librtmp2_server.Cluster.Security.Failures.{
  cluster_auth_max_failures, max_tracked_cluster_auth_ips, Failures, is_recent,
  purge_expired_cluster_auth_failures, oldest_ip_from, remove_oldest_of,
  evict_oldest_eligible_cluster_auth_ip, evict_oldest_cluster_auth_ip, cluster_auth_bucket,
  cluster_auth_rate_limited, evict_some_ip, push_failure, record_at, record_cluster_auth_failure,
  clear_cluster_auth_failures,
}
use librtmp2_server.Cluster.Security.Recorded.{purge-Distinct, length-purge-le}

-- The calls of the handshake: a test, a failure and a success.
pub data Call : Type 0 where
  asking : IpAddr → ℕ → Call
  recording : IpAddr → ℕ → ℕ → Call
  clearing : IpAddr → Call

-- The table after a call, and whether the peer is refused.
unfoldable pub run_call : Call → Failures → Failures × Bool
run_call (asking peer now) g = cluster_auth_rate_limited peer now g
run_call (recording peer now late) g = (record_cluster_auth_failure peer now late g, false)
run_call (clearing peer) g = (clear_cluster_auth_failures peer g, false)

unfoldable pub run_calls : List Call → Failures → Failures × List Bool
run_calls [] g = (g, [])
run_calls (c ∷ cs) g =
    let (now, answer) = run_call c g in
    let (last, answers) = run_calls cs now in (last, answer ∷ answers)

-- All failures of a bucket since it was last cleared.
abbrev pub Records : Type 0
Records = IpAddr → List ℕ

abbrev pub set_records : IpAddr → List ℕ → Records → Records
set_records ip ts r = λ j. if ip == j then ts else r j

unfoldable pub spec_call : Call → Records → Records × Bool
spec_call (asking peer now) r = (
  r,
  leb cluster_auth_max_failures (length (keep (is_recent now) (r (cluster_auth_bucket peer)))),
)
spec_call (recording peer now late) r =
    let ip = cluster_auth_bucket peer in (set_records ip (r ip ++ now ∷ []) r, false)
spec_call (clearing peer) r = (set_records (cluster_auth_bucket peer) [] r, false)

unfoldable pub spec_calls : List Call → Records → Records × List Bool
spec_calls [] r = (r, [])
spec_calls (c ∷ cs) r =
    let (now, answer) = spec_call c r in
    let (last, answers) = spec_calls cs now in (last, answer ∷ answers)

pub record IsTracked (g : Failures) : Type 0 where
  pub distinct : Distinct g
  pub few : length g ≤ max_tracked_cluster_auth_ips

-- A bucket that is evicted is there, so there is room afterwards.
oldest_ip-some :
    (late : ℕ) (best : IpAddr × List ℕ) (g : Failures)
    → is_some (lookup (oldest_ip_from late best g) (best ∷ g)) ≡ true
unfolding oldest_ip_from lookup
oldest_ip-some late best [] = ground (arith, ip_eqb_iff best.0 best.0)
oldest_ip-some late best (x ∷ g) =
    ground (arith, oldest_ip-some late x g, oldest_ip-some late best g)

-- One bucket is taken out, and none comes in.
abbrev Freed : Failures → Failures × Bool → Type 0
Freed g r =
    (r.1 ≡ true → Distinct r.0 × (length r.0 < length g))
    × ((ip : IpAddr) → lookup ip g ≡ none → lookup ip r.0 ≡ none)

remove_oldest-Freed :
    (late : ℕ) (candidates g : Failures)
    → Distinct g
    → ((ip : IpAddr) → is_some (lookup ip candidates) ≡ true → is_some (lookup ip g) ≡ true)
    → Freed g (remove_oldest_of late candidates g)
unfolding remove_oldest_of
remove_oldest-Freed late [] g d h = ((λ e. absurd (ground (arith, e))), λ ip e. e)
remove_oldest-Freed late (x ∷ candidates) g d h =
    let k = oldest_ip_from late x candidates in
    (
      (λ e. (remove-Distinct k g d, length-remove-lt k g (h k (oldest_ip-some late x candidates)))),
      λ ip e. ground (arith, lookup-remove ip k g, e),
    )

some_in_keep :
    (p : IpAddr × List ℕ → Bool) (g : Failures) (ip : IpAddr)
    → is_some (lookup ip (keep p g)) ≡ true
    → is_some (lookup ip g) ≡ true
some_in_keep p g ip h = elim (Option-cases (lookup ip g)) [
  | inl absent ↦ absurd (ground (arith, h, lookup-keep-none ip p g absent))
  | inr (ts, there) ↦ rw there refl
]

eligible-Freed :
    (now late : ℕ) (g : Failures)
    → Distinct g
    → Freed g (evict_oldest_eligible_cluster_auth_ip g now late)
unfolding evict_oldest_eligible_cluster_auth_ip
eligible-Freed now late g d = remove_oldest-Freed late _ g d (some_in_keep _ g)

evict_some-Freed : (now late : ℕ) (g : Failures) → Distinct g → Freed g (evict_some_ip g now late)
unfolding evict_some_ip evict_oldest_cluster_auth_ip
evict_some-Freed now late g d =
    let first = eligible-Freed now late g d in
    if-elim (Freed g) (evict_oldest_eligible_cluster_auth_ip g now late).1
      (λ done. ((λ e. first.0 done), first.1)) (λ e. remove_oldest-Freed now g g d (λ ip h. h))

-- One of the two evictions is possible where there is a bucket.
evict_some-true : (now late : ℕ) (g : Failures) → 0 < length g → (evict_some_ip g now late).1 ≡ true
unfolding evict_some_ip evict_oldest_cluster_auth_ip remove_oldest_of
evict_some-true now late [] h = absurd (omega (arith, h))
evict_some-true now late (x ∷ g) h =
    if-elim (λ (r : Failures × Bool). r.1 ≡ true)
      (evict_oldest_eligible_cluster_auth_ip (x ∷ g) now late).1 (λ e. refl) (λ e. refl)

push-IsTracked :
    (ip : IpAddr) (now : ℕ) (g : Failures)
    → Distinct g
    → length g ≤ max_tracked_cluster_auth_ips
    → (is_some (lookup ip g) ≡ false → length g < max_tracked_cluster_auth_ips)
    → IsTracked (push_failure ip now g)
unfolding push_failure
push-IsTracked ip now g d few room = record {
  distinct = insert-Distinct ip _ g d;
  few =
      ground
        (arith, few, room, length-insert ip (map_or (lookup ip g) [] (λ ts. ts) ++ now ∷ []) g);
}

pub record_at-IsTracked :
    (ip : IpAddr) (now late : ℕ) (g : Failures) → IsTracked g → IsTracked (record_at ip now late g)
unfolding record_at
record_at-IsTracked ip now late g tracked = elim (Bool-cases (is_some (lookup ip g))) [
  | inl there ↦ rw there (
      push-IsTracked ip now g tracked.distinct tracked.few (λ h. absurd (ground (arith, there, h))))
  | inr absent ↦ elim (Bool-cases (leb max_tracked_cluster_auth_ips (length g))) [
    | inr room ↦
        rw (absent, room)
          (push-IsTracked ip now g tracked.distinct tracked.few (λ h. ground (arith, room)))
    | inl at_cap ↦
        let freed = evict_some-Freed now late g tracked.distinct in
        let ok = evict_some-true now late g (ground (arith, at_cap)) in
        rw (absent, at_cap, ok)
          (push-IsTracked ip now _ (freed.0 ok).0 (omega (arith, (freed.0 ok).1, tracked.few))
            (λ h. omega (arith, (freed.0 ok).1, tracked.few)))
  ]
]

-- While there is room, a failure goes behind those of its bucket.
pub record_at-push :
    (ip : IpAddr) (now late : ℕ) (g : Failures)
    → (is_some (lookup ip g) ≡ false → length g < max_tracked_cluster_auth_ips)
    → record_at ip now late g ≡ push_failure ip now g
unfolding record_at
record_at-push ip now late g room = elim (Bool-cases (is_some (lookup ip g))) [
  | inl there ↦ rw there refl
  | inr absent ↦ rw (absent, not_full absent) refl
]
  where
    not_full : is_some (lookup ip g) ≡ false → leb max_tracked_cluster_auth_ips (length g) ≡ false
    not_full absent = ground (arith, room absent)

purge-IsTracked :
    (now : ℕ) (g : Failures) → IsTracked g → IsTracked (purge_expired_cluster_auth_failures g now)
purge-IsTracked now g tracked = record {
  distinct = purge-Distinct now g tracked.distinct;
  few = omega (arith, length-purge-le now g, tracked.few);
}

pub run_call-IsTracked : (c : Call) (g : Failures) → IsTracked g → IsTracked (run_call c g).0
unfolding run_call cluster_auth_rate_limited record_cluster_auth_failure clear_cluster_auth_failures
run_call-IsTracked (asking peer now) g tracked = purge-IsTracked now g tracked
run_call-IsTracked (recording peer now late) g tracked =
    record_at-IsTracked (cluster_auth_bucket peer) now late _ (purge-IsTracked now g tracked)
run_call-IsTracked (clearing peer) g tracked = record {
  distinct = remove-Distinct (cluster_auth_bucket peer) g tracked.distinct;
  few = omega (arith, length-remove-le (cluster_auth_bucket peer) g, tracked.few);
}

-- Whatever peers fail, in whatever order and at whatever instants, and whatever is evicted for it:
-- a table with different addresses of at most 10,000 buckets stays one, so failing peers cannot add
-- buckets beyond that. How many failures a bucket has in the window is not bounded by it.
pub run_calls-IsTracked :
    (cs : List Call) (g : Failures) → IsTracked g → IsTracked (run_calls cs g).0
unfolding run_calls
run_calls-IsTracked [] g tracked = tracked
run_calls-IsTracked (c ∷ cs) g tracked = run_calls-IsTracked cs _ (run_call-IsTracked c g tracked)
