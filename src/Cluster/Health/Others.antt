-- ===== src/Cluster/Health/Others.antt =====
-- Calls that are not about a peer leave what is recorded of it, but for sweeps.
use librtmp2_server.Base.{
  ℕ, ◌≡◌, refl, ◌∙◌, arith, false, Option, List, [], ◌∷◌, Text, Map, lookup, keep, any_of, if-elim,
  nat_eqb, nat_eq, All, lookup-insert, lookup-remove,
}
use librtmp2_server.Cluster.Health.Tracker.{
  NodeHealthState, is_down, HealthTracker, set_local, without, note_peer, remove_peer, sweep_stale,
  mark_ownership_released,
}
use librtmp2_server.Cluster.Health.Heard.{
  Call, hearing, noting, sweeping, removing, marking, being, run_call, run_calls,
}
use librtmp2_server.Cluster.Health.Swept.{lookup-arm}

any-without :
    (i id : ℕ) (ids : List ℕ)
    → any_of (λ x. nat_eqb x id) ids ≡ false
    → any_of (λ x. nat_eqb x id) (without i ids) ≡ false
unfolding any_of without keep
any-without i id [] h = refl
any-without i id (x ∷ ids) h = ground (arith, h, any-without i id ids)

pub any-without_itself :
    (id : ℕ) (ids : List ℕ) → any_of (λ x. nat_eqb x id) (without id ids) ≡ false
unfolding any_of without keep
any-without_itself id [] = refl
any-without_itself id (x ∷ ids) = ground (arith, any-without_itself id ids)

module _ {F : Type 0} where
  -- The call is not about the peer, except for sweeps.
  abbrev pub Apart : ℕ → Call F → Type 0
  Apart id (hearing i text load c m seen now) = nat_eqb i id ≡ false
  Apart id (noting i state load c m seen now) = nat_eqb i id ≡ false
  Apart id (sweeping now) = Unit
  Apart id (removing i) = nat_eqb i id ≡ false
  Apart id (marking i) = nat_eqb i id ≡ false
  Apart id (being state) = Unit

  -- The instant of a sweep is one of those.
  abbrev pub When : (ℕ → Type 0) → Call F → Type 0
  When Q (hearing i text load c m seen now) = Unit
  When Q (noting i state load c m seen now) = Unit
  When Q (sweeping now) = Q now
  When Q (removing i) = Unit
  When Q (marking i) = Unit
  When Q (being state) = Unit

  pub any_time : (c : Call F) → When (λ now. Unit) c
  any_time (hearing i text load c m seen now) = tt
  any_time (noting i state load c m seen now) = tt
  any_time (sweeping now) = tt
  any_time (removing i) = tt
  any_time (marking i) = tt
  any_time (being state) = tt

  -- What a note of another peer and the rest leave of this one.
  abbrev pub Same : ℕ → HealthTracker F → HealthTracker F → Type 0
  Same id t now =
      (any_of (λ x. nat_eqb x id) t.ownership_released ≡ false
        → any_of (λ x. nat_eqb x id) now.ownership_released ≡ false)
      × (lookup id now.peers ≡ lookup id t.peers)
      × (lookup id now.down_since ≡ lookup id t.down_since)

  pub note-Same :
      (id i : ℕ) (state : NodeHealthState) (load : F) (c m : Option Text) (seen now : ℕ)
      (t : HealthTracker F)
      → nat_eqb i id ≡ false
      → Same id t (note_peer i state load c m seen now t)
  unfolding note_peer
  note-Same id i state load c m seen now t other = (
    if-elim
        (λ (ids : List ℕ).
          any_of (λ x. nat_eqb x id) t.ownership_released ≡ false
          → any_of (λ x. nat_eqb x id) ids ≡ false)
        (is_down state) (λ e h. h) (λ e h. any-without i id t.ownership_released h),
    lookup-insert id i _ t.peers ∙ rw other refl,
    if-elim (λ (m : Map ℕ ℕ). lookup id m ≡ lookup id t.down_since) (is_down state)
        (λ e. lookup-arm i id now t.down_since ∙ rw other refl)
        (λ e. lookup-remove id i t.down_since ∙ rw other refl),
  )

  remove-Same :
      (id i : ℕ) (t : HealthTracker F) → nat_eqb i id ≡ false → Same id t (remove_peer i t)
  unfolding remove_peer
  remove-Same id i t other = (
    any-without i id t.ownership_released,
    lookup-remove id i t.peers ∙ rw other refl,
    lookup-remove id i t.down_since ∙ rw other refl,
  )

  mark-Same :
      (id i : ℕ) (t : HealthTracker F)
      → nat_eqb i id ≡ false
      → Same id t (mark_ownership_released i t)
  unfolding mark_ownership_released any_of
  mark-Same id i t other = (
    if-elim
        (λ (ids : List ℕ).
          any_of (λ x. nat_eqb x id) t.ownership_released ≡ false
          → any_of (λ x. nat_eqb x id) ids ≡ false)
        (any_of (λ x. nat_eqb x i) t.ownership_released) (λ e h. h) (λ e h. rw other h),
    refl,
    refl,
  )

  module _ (id : ℕ) (P : HealthTracker F → Type 0) (Q : ℕ → Type 0)
      (same : (t now : HealthTracker F) → Same id t now → P t → P now)
      (swept : (s : ℕ) (t : HealthTracker F) → Q s → P t → P (sweep_stale s t).0) where
    call_keeps :
        (c : Call F) (t : HealthTracker F) → Apart id c → When Q c → P t → P (run_call F c t)
    unfolding run_call set_local
    call_keeps (hearing i text load c m seen now) t apart when p =
        same _ _ (note-Same id i _ load c m seen now t apart) p
    call_keeps (noting i state load c m seen now) t apart when p =
        same _ _ (note-Same id i state load c m seen now t apart) p
    call_keeps (sweeping now) t apart when p = swept now t when p
    call_keeps (removing i) t apart when p = same _ _ (remove-Same id i t apart) p
    call_keeps (marking i) t apart when p = same _ _ (mark-Same id i t apart) p
    call_keeps (being state) t apart when p = same t _ (λ h. h, refl, refl) p

    pub calls_keep :
        (cs : List (Call F)) (t : HealthTracker F)
        → All (Apart id) cs
        → All (When Q) cs
        → P t
        → P (run_calls F cs t)
    unfolding run_calls
    calls_keep [] t apart when p = p
    calls_keep (c ∷ cs) t apart when p =
        calls_keep cs _ apart.1 when.1 (call_keeps c t apart.0 when.0 p)
