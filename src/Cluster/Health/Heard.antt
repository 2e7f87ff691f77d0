-- ===== src/Cluster/Health/Heard.antt =====
-- A peer that is heard from keeps its ownership.
use librtmp2_server.Base.{
  ℕ, ◌+◌, ◌-◌, ◌≡◌, ◌<◌, ◌≤◌, refl, sym, subst, inl, inr, arith, Bool, true, false, Option, none,
  some, List, [], ◌∷◌, map, Text, Map, lookup, insert, remove, keep, any_of, is_some, if◌then◌else◌,
  if-elim, nat_eqb, nat_eqb_iff, nat_eq, ==→eq, All, All-insert, All-remove, Bool-cases, Distinct,
}
use librtmp2_server.Cluster.Health.Tracker.{
  NodeHealthState, ready, draining, down, isolated, joining, learner, leaving, sanitized, parse,
  from_heartbeat, is_down, PeerHealth, HealthTracker, set_local, arm, note_peer, remove_peer,
  is_stale, sweep, sweep_stale, is_due, peers_ready_for_ownership_release, mark_ownership_released,
}

pub sanitized-up : (o : Option NodeHealthState) → is_down (sanitized o) ≡ false
unfolding sanitized is_down
sanitized-up none = refl
sanitized-up (some ready) = refl
sanitized-up (some draining) = refl
sanitized-up (some down) = refl
sanitized-up (some isolated) = refl
sanitized-up (some joining) = refl
sanitized-up (some learner) = refl
sanitized-up (some leaving) = refl

module _ (F : Type 0) where
  -- What the node does: a heartbeat of a peer with the text it advertises, a state that the node
  -- sets itself, and the rest.
  pub data Call : Type 0 where
    hearing : ℕ → Text → F → Option Text → Option Text → ℕ → ℕ → Call
    noting : ℕ → NodeHealthState → F → Option Text → Option Text → ℕ → ℕ → Call
    sweeping : ℕ → Call
    removing marking : ℕ → Call
    being : NodeHealthState → Call

  unfoldable pub run_call : Call → HealthTracker F → HealthTracker F
  run_call (hearing i text load c m seen now) t =
      note_peer i (from_heartbeat text) load c m seen now t
  run_call (noting i state load c m seen now) t = note_peer i state load c m seen now t
  run_call (sweeping now) t = (sweep_stale now t).0
  run_call (removing i) t = remove_peer i t
  run_call (marking i) t = mark_ownership_released i t
  run_call (being state) t = set_local state t

  unfoldable pub run_calls : List Call → HealthTracker F → HealthTracker F
  run_calls [] t = t
  run_calls (c ∷ cs) t = run_calls cs (run_call c t)

  -- The clock has not gone back behind `h`, and the node does not set the peer down by itself.
  abbrev pub Later : ℕ → ℕ → Call → Type 0
  Later h id (hearing i text load c m seen now) = h ≤ seen
  Later h id (noting i state load c m seen now) =
      (h ≤ seen) × (is_down state ≡ true → nat_eqb i id ≡ false)
  Later h id (sweeping now) = Unit
  Later h id (removing i) = Unit
  Later h id (marking i) = Unit
  Later h id (being state) = Unit

  abbrev pub Seen : ℕ → ℕ → ℕ × PeerHealth F → Type 0
  Seen h id row = row.0 ≡ id → h ≤ row.1.last_seen

  abbrev pub Spared : ℕ → ℕ → ℕ × ℕ → Type 0
  Spared until id row = row.0 ≡ id → until < row.1

  -- Heard from at `h` or later, and not marked down before the limit has passed.
  pub record IsHeard (h id : ℕ) (t : HealthTracker F) : Type 0 where
    pub seen : All (Seen h id) t.peers
    pub spared : All (Spared (h + t.miss_limit) id) t.down_since

  arm-Spared :
      (until id i now : ℕ) (since : Map ℕ ℕ)
      → (i ≡ id → until < now)
      → All (Spared until id) since
      → All (Spared until id) (arm i now since)
  unfolding arm
  arm-Spared until id i now since new h =
      if-elim (All (Spared until id)) (is_some (lookup i since)) (λ e. h)
        (λ e. All-insert (Spared until id) i now since new h)

  -- What a sweep leaves.
  abbrev Swept : ℕ → ℕ → ℕ → Map ℕ (PeerHealth F) × Map ℕ ℕ × List ℕ → Type 0
  Swept h id until (rows, since, ids) = All (Seen h id) rows × All (Spared until id) since

  sweep-Swept :
      (h id miss now : ℕ) (ps : Map ℕ (PeerHealth F)) (since : Map ℕ ℕ)
      → All (Seen h id) ps
      → All (Spared (h + miss) id) since
      → Swept h id (h + miss) (sweep miss now ps since)
  unfolding sweep is_stale
  sweep-Swept h id miss now [] since seen spared = (tt, spared)
  sweep-Swept h id miss now ((i, p) ∷ ps) since seen spared =
      elim (Bool-cases (is_stale miss now p)) [
        | inl stale ↦
            let late : i ≡ id → h + miss < now = λ e. omega (arith, overdue stale, seen.0 e) in
            let rest =
              sweep-Swept h id miss now ps (arm i now since) seen.1
                (arm-Spared (h + miss) id i now since late spared) in
            rw stale ((seen.0, rest.0), rest.1)
        | inr fresh ↦
            let rest = sweep-Swept h id miss now ps since seen.1 spared in
            rw fresh ((seen.0, rest.0), rest.1)
      ]
    where
      overdue : is_stale miss now p ≡ true → miss < now - p.last_seen
      overdue e = ground (arith, e)

  note-IsHeard :
      (h id i : ℕ) (state : NodeHealthState) (load : F) (c m : Option Text) (seen now : ℕ)
      (t : HealthTracker F)
      → h ≤ seen
      → (is_down state ≡ true → nat_eqb i id ≡ false)
      → IsHeard h id t
      → IsHeard h id (note_peer i state load c m seen now t)
  unfolding note_peer
  note-IsHeard h id i state load c m seen now t le up heard = record {
    seen = All-insert (Seen h id) i _ t.peers (λ e. le) heard.seen;
    spared =
        if-elim (All (Spared (h + t.miss_limit) id)) (is_down state)
          (λ e.
            arm-Spared (h + t.miss_limit) id i now t.down_since (λ same. absurd (other (up e) same))
              heard.spared)
          (λ e. All-remove (Spared (h + t.miss_limit) id) i t.down_since heard.spared);
  }
    where
      other : nat_eqb i id ≡ false → ¬ (i ≡ id)
      other e same = ground (arith, e, same)

  call-IsHeard :
      (h id : ℕ) (c : Call) (t : HealthTracker F)
      → Later h id c
      → IsHeard h id t
      → IsHeard h id (run_call c t)
  unfolding run_call from_heartbeat sweep_stale remove_peer mark_ownership_released set_local
  call-IsHeard h id (hearing i text load c m seen now) t later heard =
      note-IsHeard h id i _ load c m seen now t later
        (λ e. absurd (ground (arith, e, sanitized-up (parse text)))) heard
  call-IsHeard h id (noting i state load c m seen now) t later heard =
      note-IsHeard h id i state load c m seen now t later.0 later.1 heard
  call-IsHeard h id (sweeping now) t later heard =
      let swept = sweep-Swept h id t.miss_limit now t.peers t.down_since heard.seen heard.spared in
      record { seen = swept.0; spared = swept.1 }
  call-IsHeard h id (removing i) t later heard = record {
    seen = All-remove (Seen h id) i t.peers heard.seen;
    spared = All-remove (Spared (h + t.miss_limit) id) i t.down_since heard.spared;
  }
  call-IsHeard h id (marking i) t later heard = record { seen = heard.seen; spared = heard.spared }
  call-IsHeard h id (being state) t later heard = record {
    seen = heard.seen;
    spared = heard.spared;
  }

  calls-IsHeard :
      (h id : ℕ) (cs : List Call) (t : HealthTracker F)
      → All (Later h id) cs
      → IsHeard h id t
      → IsHeard h id (run_calls cs t)
  unfolding run_calls
  calls-IsHeard h id [] t later heard = heard
  calls-IsHeard h id (c ∷ cs) t later heard =
      calls-IsHeard h id cs _ later.1 (call-IsHeard h id c t later.0 heard)

  pub same_limit :
      (cs : List Call) (t : HealthTracker F) → (run_calls cs t).miss_limit ≡ t.miss_limit
  unfolding run_calls run_call note_peer sweep_stale remove_peer mark_ownership_released set_local
  same_limit [] t = refl
  same_limit (hearing i text load c m seen now ∷ cs) t = same_limit cs _
  same_limit (noting i state load c m seen now ∷ cs) t = same_limit cs _
  same_limit (sweeping now ∷ cs) t = same_limit cs _
  same_limit (removing i ∷ cs) t = same_limit cs _
  same_limit (marking i ∷ cs) t = same_limit cs _
  same_limit (being state ∷ cs) t = same_limit cs _

  absent-Seen : (h id : ℕ) (ps : Map ℕ (PeerHealth F)) → lookup id ps ≡ none → All (Seen h id) ps
  unfolding lookup
  absent-Seen h id [] absent = tt
  absent-Seen h id ((i, p) ∷ ps) absent =
      (λ e. absurd (ground (arith, absent, e)), absent-Seen h id ps (ground (arith, absent)))

  remove-Spared : (until id : ℕ) (since : Map ℕ ℕ) → All (Spared until id) (remove id since)
  unfolding remove
  remove-Spared until id [] = tt
  remove-Spared until id ((i, x) ∷ since) = elim (Bool-cases (nat_eqb i id)) [
    | inl same ↦ rw same (remove-Spared until id since)
    | inr other ↦ rw other ((λ e. absurd (ground (arith, other, e))), remove-Spared until id since)
  ]

  -- The entry of a key that has just been written, where no key stands twice.
  insert-Seen :
      (id : ℕ) (p : PeerHealth F) (ps : Map ℕ (PeerHealth F))
      → Distinct ps
      → All (Seen p.last_seen id) (insert id p ps)
  unfolding insert
  insert-Seen id p [] d = (λ e. omega arith, tt)
  insert-Seen id p ((i, q) ∷ ps) d = elim (Bool-cases (nat_eqb i id)) [
    | inl same ↦
        let absent : lookup id ps ≡ none =
          subst (λ (k : ℕ). lookup k ps ≡ none) (==→eq i id same) d.0 in
        rw same ((λ e. omega arith), absent-Seen p.last_seen id ps absent)
    | inr other ↦ rw other ((λ e. absurd (ground (arith, other, e))), insert-Seen id p ps d.1)
  ]

  -- Right after a heartbeat.
  hearing-IsHeard :
      (id : ℕ) (text : Text) (load : F) (c m : Option Text) (seen now : ℕ) (t : HealthTracker F)
      → Distinct t.peers
      → IsHeard seen id (run_call (hearing id text load c m seen now) t)
  unfolding run_call note_peer from_heartbeat
  hearing-IsHeard id text load c m seen now t d = record {
    seen = insert-Seen id _ t.peers d;
    spared =
        subst
          (λ (o : Bool).
            All (Spared (seen + t.miss_limit) id)
              (if o then arm id now t.down_since else remove id t.down_since))
          (sym (sanitized-up (parse text))) (remove-Spared (seen + t.miss_limit) id t.down_since);
  }

  none_due :
      (until id grace now : ℕ) (released : List ℕ) (since : Map ℕ ℕ)
      → 0 < grace
      → now ≤ until + grace
      → All (Spared until id) since
      → any_of
          (λ x. nat_eqb x id)
          (map (λ (row : ℕ × ℕ). row.0) (keep (is_due grace now released) since))
        ≡ false
  unfolding keep any_of is_due
  none_due until id grace now released [] pos le spared = refl
  none_due until id grace now released ((i, x) ∷ since) pos le spared =
      elim (Bool-cases (is_due grace now released (i, x))) [
        | inr not_due ↦ rw not_due (none_due until id grace now released since pos le spared.1)
        | inl due ↦
            rw (due, other (ground (arith, due)) (nat_eqb_iff i id).0)
              (none_due until id grace now released since pos le spared.1)
      ]
    where
      other : grace ≤ now - x → (nat_eqb i id ≡ true → i ≡ id) → nat_eqb i id ≡ false
      other long to = elim (Bool-cases (nat_eqb i id)) [
        | inl same ↦ absurd (omega (arith, long, pos, le, spared.0 (to same)))
        | inr differs ↦ differs
      ]

  -- Let the tracker have one row for a peer. A heartbeat of the peer arrives at the instant `h`,
  -- with any text for its health, also DOWN. Whatever the node then hears of this peer and of
  -- others, sweeps, removes, marks as released, or sets, if it does not set this peer down by
  -- itself and the clock does not go back behind `h`: the peer is not due for a release of its
  -- ownership at any instant up to `h`, the limit for missed heartbeats and the grace period, if
  -- that is not zero.
  pub run_calls-IsHeard :
      (id : ℕ) (text : Text) (load : F) (c m : Option Text) (h again : ℕ) (t : HealthTracker F)
      (cs : List Call) (grace now : ℕ)
      → Distinct t.peers
      → All (Later h id) cs
      → 0 < grace
      → now ≤ h + t.miss_limit + grace
      → any_of
          (λ x. nat_eqb x id)
          (peers_ready_for_ownership_release grace now
            (run_calls (hearing id text load c m h again ∷ cs) t))
        ≡ false
  unfolding run_calls run_call peers_ready_for_ownership_release
  run_calls-IsHeard id text load c m h again t cs grace now d later pos le =
      let first = run_call (hearing id text load c m h again) t in
      let heard =
        calls-IsHeard h id cs first later (hearing-IsHeard id text load c m h again t d) in
      let limit : (run_calls cs first).miss_limit ≡ t.miss_limit =
        same_limit (hearing id text load c m h again ∷ cs) t in
      none_due (h + (run_calls cs first).miss_limit) id grace now _ (run_calls cs first).down_since
        pos (omega (arith, le, limit)) heard.spared
