-- ===== src/Cluster/Health/Silent.antt =====
-- A peer that falls silent becomes due.
use librtmp2_server.Base.{
  ℕ, ◌-◌, ◌≡◌, ◌<◌, ◌≤◌, refl, sym, ap, ◌∙◌, subst, inl, inr, arith, true, false, Option, some,
  List, [], ◌∷◌, ◌++◌, map, Text, Map, lookup, insert, keep, any_of, is_some, if-elim, nat_eqb,
  nat_eqb_iff, nat_eq, ==→eq, All, All-intro, Bool-cases, Option-cases, lookup-insert,
  lookup-remove,
}
use librtmp2_server.Cluster.Health.Tracker.{
  parse, from_heartbeat, is_down, PeerHealth, HealthTracker, note_peer, is_stale, sweep,
  sweep_stale, is_due, peers_ready_for_ownership_release,
}
use librtmp2_server.Cluster.Health.Heard.{
  same_limit, Call, hearing, sweeping, run_call, run_calls, sanitized-up,
}
use librtmp2_server.Cluster.Health.Swept.{sweep_keeps, sweep_early, aged, sweep_row}
use librtmp2_server.Cluster.Health.Others.{
  Apart, When, any_time, any-without_itself, Same, calls_keep,
}

module _ (F : Type 0) where
  -- Marked down at `s` or earlier, and not released.
  pub record IsMarked (s id : ℕ) (t : HealthTracker F) : Type 0 where
    pub held : any_of (λ x. nat_eqb x id) t.ownership_released ≡ false
    pub since : ℕ
    pub at : lookup id t.down_since ≡ some since
    pub early : since ≤ s

  -- Last heard from at `h`, and swept at `s` at the latest.
  pub record IsQuiet (h s id : ℕ) (t : HealthTracker F) : Type 0 where
    pub held : any_of (λ x. nat_eqb x id) t.ownership_released ≡ false
    pub row : PeerHealth F
    pub found : lookup id t.peers ≡ some row
    pub heard : row.last_seen ≡ h
    pub armed : is_down row.state ≡ true → is_some (lookup id t.down_since) ≡ true
    pub early : (x : ℕ) → lookup id t.down_since ≡ some x → x ≤ s

  Same-IsMarked :
      (s id : ℕ) (t now : HealthTracker F) → Same id t now → IsMarked s id t → IsMarked s id now
  Same-IsMarked s id t now same marked = record {
    held = same.0 marked.held;
    since = marked.since;
    at = same.2 ∙ marked.at;
    early = marked.early;
  }

  Same-IsQuiet :
      (h s id : ℕ) (t now : HealthTracker F) → Same id t now → IsQuiet h s id t → IsQuiet h s id now
  Same-IsQuiet h s id t now same quiet = record {
    held = same.0 quiet.held;
    row = quiet.row;
    found = same.1 ∙ quiet.found;
    heard = quiet.heard;
    armed = λ e. ap (λ (o : Option ℕ). is_some o) same.2 ∙ quiet.armed e;
    early = λ x at. quiet.early x (sym same.2 ∙ at);
  }

  sweep-IsQuiet :
      (h s id now : ℕ) (t : HealthTracker F)
      → now ≤ s
      → IsQuiet h s id t
      → IsQuiet h s id (sweep_stale now t).0
  unfolding sweep_stale aged
  sweep-IsQuiet h s id now t le quiet = record {
    held = quiet.held;
    row = aged t.miss_limit now quiet.row;
    found = after.0;
    heard =
        if-elim (λ (p : PeerHealth F). p.last_seen ≡ h) (is_stale t.miss_limit now quiet.row)
          (λ e. quiet.heard) (λ e. quiet.heard);
    armed =
        if-elim
          (λ (p : PeerHealth F).
            is_down p.state ≡ true
            → is_some (lookup id (sweep t.miss_limit now t.peers t.down_since).1) ≡ true)
          (is_stale t.miss_limit now quiet.row) (λ e d. after.1 e) (λ e d. still (quiet.armed d));
    early = sweep_early id t.miss_limit now s t.peers t.down_since le quiet.early;
  }
    where
      after :
          (lookup id (sweep t.miss_limit now t.peers t.down_since).0
            ≡ some (aged t.miss_limit now quiet.row))
          × (is_stale t.miss_limit now quiet.row ≡ true
              → is_some (lookup id (sweep t.miss_limit now t.peers t.down_since).1) ≡ true)
      after = sweep_row id t.miss_limit now quiet.row t.peers t.down_since quiet.found

      still :
          is_some (lookup id t.down_since) ≡ true
          → is_some (lookup id (sweep t.miss_limit now t.peers t.down_since).1) ≡ true
      still e = elim (Option-cases (lookup id t.down_since)) [
        | inl absent ↦ absurd (ground (arith, absent, e))
        | inr (x, there) ↦ rw (sweep_keeps id t.miss_limit now x t.peers t.down_since there) refl
      ]

  -- A sweep after the limit marks a quiet peer.
  sweep-IsMarked :
      (h s id : ℕ) (t : HealthTracker F)
      → t.miss_limit < s - h
      → IsQuiet h s id t
      → IsMarked s id (sweep_stale s t).0
  unfolding sweep_stale is_stale
  sweep-IsMarked h s id t long quiet =
      elim (Option-cases (lookup id (sweep t.miss_limit s t.peers t.down_since).1)) [
        | inl absent ↦ absurd (ground (arith, absent, marked))
        | inr (x, there) ↦ record {
          held = quiet.held;
          since = x;
          at = there;
          early =
              sweep_early id t.miss_limit s s t.peers t.down_since (omega arith) quiet.early x
                there;
        }
      ]
    where
      marked : is_some (lookup id (sweep t.miss_limit s t.peers t.down_since).1) ≡ true
      marked = elim (Bool-cases (is_down quiet.row.state)) [
        | inl down_already ↦ elim (Option-cases (lookup id t.down_since)) [
          | inl absent ↦ absurd (ground (arith, absent, quiet.armed down_already))
          | inr (x, there) ↦ rw (sweep_keeps id t.miss_limit s x t.peers t.down_since there) refl
        ]
        | inr up ↦
            (sweep_row id t.miss_limit s quiet.row t.peers t.down_since quiet.found).1
              (ground (arith, up, long, quiet.heard))
      ]

  marked_due :
      (s id grace now : ℕ) (released : List ℕ) (x : ℕ) (since : Map ℕ ℕ)
      → any_of (λ y. nat_eqb y id) released ≡ false
      → lookup id since ≡ some x
      → x ≤ s
      → grace ≤ now - s
      → any_of
          (λ y. nat_eqb y id)
          (map (λ (row : ℕ × ℕ). row.0) (keep (is_due grace now released) since))
        ≡ true
  unfolding any_of keep lookup is_due
  marked_due s id grace now released x [] held at early long = absurd (ground (arith, at))
  marked_due s id grace now released x ((i, y) ∷ since) held at early long =
      elim (Bool-cases (nat_eqb i id)) [
        | inl same ↦ rw (due_now same, same) refl
        | inr other ↦
            let rest =
              marked_due s id grace now released x since held (ground (arith, at, other)) early
                long in
            if-elim
              (λ (m : Map ℕ ℕ). any_of (λ z. nat_eqb z id) (map (λ (row : ℕ × ℕ). row.0) m) ≡ true)
              (is_due grace now released (i, y)) (λ e. rw (other, rest) refl) (λ e. rest)
      ]
    where
      not_released : nat_eqb i id ≡ true → any_of (λ z. nat_eqb z i) released ≡ false
      not_released same =
          subst (λ (k : ℕ). any_of (λ z. nat_eqb z k) released ≡ false) (sym (==→eq i id same)) held

      due_now : nat_eqb i id ≡ true → is_due grace now released (i, y) ≡ true
      due_now same = ground (arith, not_released same, at, same, early, long)

  inserted :
      (id : ℕ) (p : PeerHealth F) (ps : Map ℕ (PeerHealth F)) → lookup id (insert id p ps) ≡ some p
  inserted id p ps = ground (arith, lookup-insert id id p ps, nat_eqb_iff id id)

  hearing-IsQuiet :
      (id : ℕ) (text : Text) (load : F) (c m : Option Text) (h again s : ℕ) (t : HealthTracker F)
      → IsQuiet h s id (run_call F (hearing id text load c m h again) t)
  unfolding run_call note_peer from_heartbeat
  hearing-IsQuiet id text load c m h again s t = record {
    held = rw up (any-without_itself id t.ownership_released);
    row = _;
    found = inserted id _ t.peers;
    heard = refl;
    armed = λ e. absurd (ground (arith, e, up));
    early = λ x at. absurd (ground (arith, at, up, lookup-remove id id t.down_since, itself));
  }
    where
      up : is_down (from_heartbeat text) ≡ false
      up = sanitized-up (parse text)

      itself : nat_eqb id id ≡ true
      itself = (nat_eqb_iff id id).1 refl

  runs :
      (cs ds : List (Call F)) (t : HealthTracker F)
      → run_calls F (cs ++ ds) t ≡ run_calls F ds (run_calls F cs t)
  unfolding run_calls
  runs [] ds t = refl
  runs (c ∷ cs) ds t = runs cs ds (run_call F c t)

  sweep_stale-IsMarked :
      (s id now : ℕ) (t : HealthTracker F) → IsMarked s id t → IsMarked s id (sweep_stale now t).0
  unfolding sweep_stale
  sweep_stale-IsMarked s id now t marked = record {
    held = marked.held;
    since = marked.since;
    at = sweep_keeps id t.miss_limit now marked.since t.peers t.down_since marked.at;
    early = marked.early;
  }

  -- After a heartbeat of a peer at the instant `h`, let the node do nothing with this peer, whatever
  -- it does with others, and sweep at any instants up to `s`; then let it sweep at `s`, where more
  -- than the limit for missed heartbeats has passed since `h`, and then again do anything with the
  -- others. From any tracker: once the grace period has passed since `s`, the peer is due for the
  -- release of its ownership.
  pub run_calls-IsMarked :
      (id : ℕ) (text : Text) (load : F) (c m : Option Text) (h again s : ℕ) (t : HealthTracker F)
      (cs ds : List (Call F)) (grace now : ℕ)
      → All (Apart id) cs
      → All (When (λ at. at ≤ s)) cs
      → All (Apart id) ds
      → t.miss_limit < s - h
      → grace ≤ now - s
      → any_of
          (λ x. nat_eqb x id)
          (peers_ready_for_ownership_release grace now
            (run_calls F (hearing id text load c m h again ∷ cs ++ sweeping s ∷ ds) t))
        ≡ true
  unfolding run_calls run_call peers_ready_for_ownership_release
  run_calls-IsMarked id text load c m h again s t cs ds grace now apart until apart_after long
        waited =
      subst
        (λ (r : HealthTracker F).
          any_of (λ x. nat_eqb x id) (peers_ready_for_ownership_release grace now r) ≡ true)
        (sym (runs cs (sweeping s ∷ ds) first)) due
    where
      first : HealthTracker F
      first = run_call F (hearing id text load c m h again) t

      swept : HealthTracker F
      swept = (sweep_stale s (run_calls F cs first)).0

      last : HealthTracker F
      last = run_calls F ds swept

      quiet : IsQuiet h s id (run_calls F cs first)
      quiet =
          calls_keep id (IsQuiet h s id) (λ at. at ≤ s) (Same-IsQuiet h s id) (sweep-IsQuiet h s id)
            cs first apart until (hearing-IsQuiet id text load c m h again s t)

      limit : (run_calls F cs first).miss_limit ≡ t.miss_limit
      limit = same_limit F (hearing id text load c m h again ∷ cs) t

      marked : IsMarked s id last
      marked =
          calls_keep id (IsMarked s id) (λ at. Unit) (Same-IsMarked s id)
            (λ now t all. sweep_stale-IsMarked s id now t) ds swept apart_after
            (All-intro (When (λ at. Unit)) any_time ds)
            (sweep-IsMarked h s id (run_calls F cs first) (omega (arith, long, limit)) quiet)

      due : any_of (λ x. nat_eqb x id) (peers_ready_for_ownership_release grace now last) ≡ true
      due =
          marked_due s id grace now last.ownership_released marked.since last.down_since marked.held
            marked.at marked.early waited
