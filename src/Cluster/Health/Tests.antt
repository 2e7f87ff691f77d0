-- ===== src/Cluster/Health/Tests.antt =====
-- src/cluster/health.rs: two peers, one of which is silent.
use librtmp2_server.Base.{
  ℕ, ◌+◌, ◌*◌, ◌≡◌, refl, arith, true, false, none, some, List, [], ◌∷◌, ◌++◌, lookup, insert,
  remove, keep, any_of, nat_eqb, text_eqb,
}
use librtmp2_server.Cluster.Health.Tracker.{
  ready, down, as_str, parse_arms, parse, sanitized, from_heartbeat, is_down, HealthTracker,
  new_tracker, set_local, without, arm, note_peer, is_stale, sweep, sweep_stale, is_due,
  peers_ready_for_ownership_release, mark_ownership_released, peer_state, peer_report_stale,
  alive_voters,
}
use librtmp2_server.Cluster.Health.Heard.{
  Call, hearing, noting, sweeping, removing, marking, being, run_call, run_calls, run_calls-IsHeard,
}
use librtmp2_server.Cluster.Health.Silent.{run_calls-IsMarked}

-- Heartbeats of 200 ms: the limit is 2 s.
abbrev tracker : HealthTracker (Unit {0})
tracker = new_tracker 200_000_000

abbrev second : ℕ
second = 1_000_000_000

abbrev later_calls : List (Call (Unit {0}))
later_calls =
    being ready
    ∷ hearing 2 (b'D' ∷ b'O' ∷ b'W' ∷ b'N' ∷ []) tt none none (6 * second) (6 * second)
    ∷ noting 3 down tt none none (6 * second) (6 * second)
    ∷ sweeping (7 * second)
    ∷ marking 3
    ∷ sweeping (8 * second + 1)
    ∷ []

abbrev reached : HealthTracker (Unit {0})
reached = run_calls (Unit {0}) later_calls tracker

-- The peer 2 is down after eight seconds, since it was heard from at six; one more, and it is due.
-- The peer 3 has been marked.
one_silent :
    (peer_state 2 reached ≡ some down)
    × (peers_ready_for_ownership_release second (9 * second + 1) reached ≡ 2 ∷ [])
    × (alive_voters (1 ∷ 2 ∷ 3 ∷ []) 1 reached ≡ 1)
    × (peer_report_stale 3 (8 * second) reached ≡ true)
unfolding peer_state peers_ready_for_ownership_release is_due alive_voters peer_report_stale
    run_calls run_call new_tracker set_local from_heartbeat parse parse_arms sanitized as_str
    text_eqb note_peer arm without sweep_stale sweep is_stale is_down mark_ownership_released lookup
    insert remove keep any_of
one_silent = (refl, refl, refl, refl)

run_calls-IsHeard_example :
    any_of
      (λ x. nat_eqb x 2)
      (peers_ready_for_ownership_release second (8 * second) (
        run_calls
          (Unit {0})
          (hearing 2 (b'D' ∷ b'O' ∷ b'W' ∷ b'N' ∷ []) tt none none (5 * second) (5 * second)
            ∷ later_calls)
          tracker))
    ≡ false
unfolding new_tracker is_down
run_calls-IsHeard_example =
    run_calls-IsHeard (Unit {0}) 2 (b'D' ∷ b'O' ∷ b'W' ∷ b'N' ∷ []) tt none none (5 * second)
      (5 * second) tracker later_calls second (8 * second) tt
      (tt, (omega arith, ((omega arith, λ e. refl), (tt, (tt, (tt, tt)))))) (omega arith)
      (omega arith)

-- The peer 3 is down and marked, and the peer 2 says nothing after the first second.
abbrev early_calls : List (Call (Unit {0}))
early_calls =
    noting 3 down tt none none (2 * second) (2 * second) ∷ sweeping (2 * second) ∷ marking 3 ∷ []

abbrev late_calls : List (Call (Unit {0}))
late_calls = being ready ∷ removing 3 ∷ sweeping (5 * second) ∷ []

run_calls-IsMarked_example :
    any_of
      (λ x. nat_eqb x 2)
      (peers_ready_for_ownership_release second (5 * second) (
        run_calls
          (Unit {0})
          (hearing 2 (b'D' ∷ []) tt none none second second ∷ early_calls
            ++ sweeping (4 * second) ∷ late_calls)
          tracker))
    ≡ true
unfolding new_tracker
run_calls-IsMarked_example =
    run_calls-IsMarked (Unit {0}) 2 (b'D' ∷ []) tt none none second second (4 * second) tracker
      early_calls late_calls second (5 * second) (refl, (tt, (refl, tt)))
      (tt, (omega arith, (tt, tt))) (tt, (refl, (tt, tt))) (omega arith) (omega arith)
