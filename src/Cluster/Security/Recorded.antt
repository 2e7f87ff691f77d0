-- ===== src/Cluster/Security/Recorded.antt =====
-- The table of failed handshakes after one call: nothing recent is lost while there is room.
use librtmp2_server.Base.{
  ℕ, suc, ◌≡◌, ◌≤◌, refl, ap, inl, inr, arith, true, not, none, some, List, [], ◌∷◌, lookup, keep,
  length, map_or, is_some, if◌then◌else◌, nat_eqb, IpAddr, ip_eq, Distinct, lookup-keep,
  keep-Distinct, Option-cases, length-keep-le, length-zero, keep-keep,
}
use librtmp2_server.Cluster.Security.Failures.{
  Failures, is_recent, retain_recent, purge_expired_cluster_auth_failures,
}

-- The recent failures of a bucket.
abbrev pub recent : ℕ → IpAddr → Failures → List ℕ
recent now ip g = map_or (lookup ip g) [] (λ entries. keep (is_recent now) entries)

pub is_recent_before :
    (now later t : ℕ) → now ≤ later → is_recent later t ≡ true → is_recent now t ≡ true
unfolding is_recent
is_recent_before now later t h = ground arith

pub keep-later :
    (now later : ℕ) (ts : List ℕ)
    → now ≤ later
    → keep (is_recent later) (keep (is_recent now) ts) ≡ keep (is_recent later) ts
keep-later now later ts h =
    keep-keep (is_recent later) (is_recent now) ts (λ t. is_recent_before now later t h)

lookup-retain :
    (now : ℕ) (ip : IpAddr) (g : Failures)
    → lookup ip (retain_recent now g)
      ≡ map_or (lookup ip g) none (λ ts. some (keep (is_recent now) ts))
unfolding lookup retain_recent
lookup-retain now ip [] = refl
lookup-retain now ip ((j, ts) ∷ g) = ground (arith, lookup-retain now ip g)

retain-Distinct : (now : ℕ) (g : Failures) → Distinct g → Distinct (retain_recent now g)
unfolding retain_recent
retain-Distinct now [] d = tt
retain-Distinct now ((j, ts) ∷ g) d =
    (ground (arith, lookup-retain now j g, d.0), retain-Distinct now g d.1)

length-retain : (now : ℕ) (g : Failures) → length (retain_recent now g) ≡ length g
unfolding retain_recent
length-retain now [] = refl
length-retain now (x ∷ g) = ap suc (length-retain now g)

module _ (now : ℕ) (g : Failures) (d : Distinct g) where
  abbrev purged : Failures
  purged = purge_expired_cluster_auth_failures g now

  lookup-purge :
      (ip : IpAddr)
      → lookup ip purged
        ≡ map_or (lookup ip g) none (λ ts.
          if nat_eqb (length (keep (is_recent now) ts)) 0
          then none
          else some (keep (is_recent now) ts))
  unfolding purge_expired_cluster_auth_failures
  lookup-purge ip = ground (
    arith,
    lookup-keep ip (λ (x : IpAddr × List ℕ). not (nat_eqb (length x.1) 0)) (retain_recent now g)
        (retain-Distinct now g d),
    lookup-retain now ip g,
  )

  pub purge-Distinct : Distinct purged
  unfolding purge_expired_cluster_auth_failures
  purge-Distinct = keep-Distinct _ (retain_recent now g) (retain-Distinct now g d)

  -- What a purge leaves is exactly what is recent, and a bucket only where there is something.
  pub purge-entries : (ip : IpAddr) → map_or (lookup ip purged) [] (λ ts. ts) ≡ recent now ip g
  purge-entries ip = elim (Option-cases (lookup ip g)) [
    | inl absent ↦ ground (arith, lookup-purge ip, absent)
    | inr (ts, there) ↦
        ground (arith, lookup-purge ip, there, length-zero (keep (is_recent now) ts))
  ]

  pub purge-held :
      (ip : IpAddr) → is_some (lookup ip purged) ≡ not (nat_eqb (length (recent now ip g)) 0)
  purge-held ip = elim (Option-cases (lookup ip g)) [
    | inl absent ↦ ground (arith, lookup-purge ip, absent)
    | inr (ts, there) ↦ ground (arith, lookup-purge ip, there)
  ]

pub length-purge-le :
    (now : ℕ) (g : Failures) → length (purge_expired_cluster_auth_failures g now) ≤ length g
unfolding purge_expired_cluster_auth_failures
length-purge-le now g = omega (
  arith,
  length-retain now g,
  length-keep-le (λ (x : IpAddr × List ℕ). not (nat_eqb (length x.1) 0)) (retain_recent now g),
)
