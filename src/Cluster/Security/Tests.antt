-- ===== src/Cluster/Security/Tests.antt =====
-- src/cluster/security.rs: a peer that guesses, two reservations, and the theorems there.
use librtmp2_server.Base.{
  ◌+◌, ◌*◌, ◌^◌, ◌≡◌, ◌↔◌, refl, arith, true, false, List, [], ◌∷◌, ◌++◌, Text, any_of, keep,
  IpAddr, v4, v6, ip_eqb, to_canonical,
}
use librtmp2_server.Cluster.Security.Failures
use librtmp2_server.Cluster.Security.Failures.{Failures, cluster_auth_bucket}
use librtmp2_server.Cluster.Security.Limited
use librtmp2_server.Cluster.Security.Limited.{
  Call, asking, recording, clearing, run_calls, spec_calls, IsTracked, run_calls-IsTracked,
}
use librtmp2_server.Cluster.Security.Exact.{Orderly, run_calls-Limited}
use librtmp2_server.Cluster.Security.Secrets.{secrets_equal, secrets_equal_iff}
use librtmp2_server.Cluster.Security.Budget.{
  Budget, Reach, start, later, reserve, reserve_round, IsCharged, Reach-IsCharged,
}

-- Two addresses of one network.
abbrev near : IpAddr
near = v6 (0x20010db8 * 2 ^ 96 + 1)

abbrev next : IpAddr
next = v6 (0x20010db8 * 2 ^ 96 + 2)

abbrev network : IpAddr
network = v6 (0x20010db8 * 2 ^ 96)

one_network : cluster_auth_bucket near ≡ cluster_auth_bucket next
unfolding cluster_auth_bucket to_canonical Failures.upper_half
one_network = refl

abbrev calls : List Call
calls =
    recording near 5 5
    ∷ recording next 6 6
    ∷ recording near 6 6
    ∷ recording near 7 7
    ∷ recording near 7 7
    ∷ recording near 8 8
    ∷ recording near 8 8
    ∷ recording near 9 9
    ∷ recording near 9 9
    ∷ asking next 10
    ∷ recording near 10 10
    ∷ asking next 10
    ∷ asking (v4 3) 11
    ∷ clearing next
    ∷ asking near 12
    ∷ []

refused_at_ten :
    (spec_calls calls (λ ip. [])).1
    ≡ false ∷ false ∷ false ∷ false ∷ false ∷ false ∷ false ∷ false ∷ false ∷ false ∷ false ∷ true
      ∷ false ∷ false ∷ false ∷ []
unfolding spec_calls Limited.spec_call Failures.is_recent keep cluster_auth_bucket to_canonical
    Failures.upper_half ip_eqb
refused_at_ten = refl

run_calls-Limited_example : (run_calls calls []).1 ≡ (spec_calls calls (λ ip. [])).1
unfolding any_of cluster_auth_bucket to_canonical Failures.upper_half ip_eqb
run_calls-Limited_example = run_calls-Limited (network ∷ []) calls (omega arith) ordered
  where
    ordered : Orderly (network ∷ []) 0 calls
    ordered = ground arith

run_calls-IsTracked_example : IsTracked (run_calls calls []).0
run_calls-IsTracked_example =
    run_calls-IsTracked calls [] (record { distinct = tt; few = omega arith })

abbrev secret : Text
secret = b's' ∷ []

secrets_equal_iff_example :
    (secrets_equal secret (secret ++ 0 ∷ []) ≡ true) ↔ (secret ≡ secret ++ 0 ∷ [])
secrets_equal_iff_example = secrets_equal_iff secret (secret ++ 0 ∷ [])

abbrev reserved : Budget
reserved = record { counter = 70; guards = 70 ∷ [] }

one_reservation : Reach 100 reserved
unfolding reserve_round
one_reservation =
    later start (reserve (record { counter = 0; guards = [] }) 70 0 70 (omega arith) refl)

Reach-IsCharged_example : IsCharged 100 reserved
Reach-IsCharged_example = Reach-IsCharged (omega arith) one_reservation
