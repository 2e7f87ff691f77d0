-- ===== src/Media/Ownership.antt =====
-- src/cluster/media/ownership.rs: which node owns a stream, under which epoch, as this node sees it.
use librtmp2_server.Base.{
  ℕ, ◌+◌, ◌≡◌, ◌≤◌, ◌<◌, refl, arith, max, ◌-◌, Bool, true, false, not, ◌&&◌, Option, none, some,
  List, [], ◌∷◌, ◌++◌, Text, Map, lookup, insert, remove, keep, map, All, All-keep, All-weaken,
  All-intro, map_or, is_some, if◌then◌else◌, if-elim, nat_eqb, text_eq, ◌==◌, u64_mod,
  fetch_add_one, saturating_add64,
}
use librtmp2_server.Db.Tables.{StreamOwner}
mod Tests

-- A node and an epoch.
abbrev pub Owner : Type 0
Owner = ℕ × ℕ

pub record OwnershipTracker : Type 0 where
  pub owners : Map Text Owner
  pub next_epoch : ℕ

abbrev pub new : OwnershipTracker
new = record { owners = []; next_epoch = 1 }

-- `fetch_max(epoch.saturating_add(1))`.
unfoldable pub advance_past : ℕ → OwnershipTracker → OwnershipTracker
advance_past epoch t = record t { next_epoch = max t.next_epoch (saturating_add64 epoch 1) }

unfoldable pub take_next_epoch : OwnershipTracker → OwnershipTracker × ℕ
take_next_epoch t = (record t { next_epoch = fetch_add_one t.next_epoch }, t.next_epoch)

unfoldable pub set : Text → ℕ → ℕ → OwnershipTracker → OwnershipTracker
set id node epoch t = advance_past epoch (record t { owners = insert id (node, epoch) t.owners })

unfoldable pub clear : Text → OwnershipTracker → OwnershipTracker
clear id t = record t { owners = remove id t.owners }

unfoldable pub has_epoch : ℕ → Option Owner → Bool
has_epoch epoch none = false
has_epoch epoch (some o) = nat_eqb o.1 epoch

unfoldable pub clear_if_epoch : Text → ℕ → OwnershipTracker → OwnershipTracker × Bool
clear_if_epoch id epoch t =
    if has_epoch epoch (lookup id t.owners)
    then (record t { owners = remove id t.owners }, true)
    else (t, false)

unfoldable pub clear_for_node : ℕ → OwnershipTracker → OwnershipTracker
clear_for_node node t = record t {
  owners = keep (λ (x : Text × Owner). not (nat_eqb x.1.0 node)) t.owners;
}

-- The map of the rows, and the largest epoch in them.
unfoldable pub rows_into : List StreamOwner → Map Text Owner → Map Text Owner
rows_into [] g = g
rows_into (o ∷ os) g = rows_into os (insert o.stream_id (o.owner_node_id, o.epoch) g)

unfoldable pub max_epoch_on : ℕ → List StreamOwner → ℕ
max_epoch_on n [] = n
max_epoch_on n (o ∷ os) = max_epoch_on (max n o.epoch) os

unfoldable pub hydrate_from : List StreamOwner → OwnershipTracker → OwnershipTracker
hydrate_from rows t = advance_past (max_epoch_on 0 rows) (record t { owners = rows_into rows [] })

unfoldable pub same_owner : Option Owner → Owner → Bool
same_owner none now = false
same_owner (some old) now = nat_eqb old.0 now.0 && nat_eqb old.1 now.1

-- The entries of the new map that differ, then those of the old map that are gone.
unfoldable pub changed_owners : Map Text Owner → Map Text Owner → List (Text × Option Owner)
changed_owners old next =
    map (λ (x : Text × Owner). (x.0, lookup x.0 old))
      (keep (λ (x : Text × Owner). not (same_owner (lookup x.0 old) x.1)) next)
    ++ map (λ (x : Text × Owner). (x.0, lookup x.0 old))
        (keep (λ (x : Text × Owner). not (is_some (lookup x.0 next))) old)

unfoldable pub sync_from :
    List StreamOwner → OwnershipTracker → OwnershipTracker × List (Text × Option Owner)
sync_from rows t =
    let next = rows_into rows [] in
    (advance_past (max_epoch_on 0 rows) (record t { owners = next }), changed_owners t.owners next)

unfoldable pub accepts_owner : Text → ℕ → ℕ → OwnershipTracker → Bool
accepts_owner id node epoch t =
    map_or (lookup id t.owners) false (λ o. nat_eqb o.0 node && nat_eqb o.1 epoch)

unfoldable pub accepts_epoch : Text → ℕ → OwnershipTracker → Bool
accepts_epoch id epoch t = has_epoch epoch (lookup id t.owners)

-- The calls that change the tracker.
pub data Call : Type 0 where
  setting : Text → ℕ → ℕ → Call
  clearing : Text → Call
  clearing_epoch : Text → ℕ → Call
  clearing_node : ℕ → Call
  hydrating syncing : List StreamOwner → Call
  advancing : ℕ → Call
  taking : Call

unfoldable pub run_call : Call → OwnershipTracker → OwnershipTracker
run_call (setting id node epoch) t = set id node epoch t
run_call (clearing id) t = clear id t
run_call (clearing_epoch id epoch) t = (clear_if_epoch id epoch t).0
run_call (clearing_node node) t = clear_for_node node t
run_call (hydrating rows) t = hydrate_from rows t
run_call (syncing rows) t = (sync_from rows t).0
run_call (advancing epoch) t = advance_past epoch t
run_call taking t = (take_next_epoch t).0

-- Every tracked epoch has been passed by the counter, which saturates.
abbrev pub Passed : ℕ → Text × Owner → Type 0
Passed n x = saturating_add64 x.1.1 1 ≤ n

abbrev pub Ahead : OwnershipTracker → Type 0
Ahead t = All (Passed t.next_epoch) t.owners

module _ (P : Text × Owner → Type 0) where
  insert-All :
      (id : Text) (o : Owner) (g : Map Text Owner)
      → ((i : Text) → P (i, o))
      → All P g
      → All P (insert id o g)
  unfolding insert
  insert-All id o [] h all = (h id, tt)
  insert-All id o (x ∷ g) h all =
      if-elim (All P) (x.0 == id) (λ s. (h id, all.1)) (λ s. (all.0, insert-All id o g h all.1))

  remove-All : (id : Text) (g : Map Text Owner) → All P g → All P (remove id g)
  unfolding remove
  remove-All id [] all = tt
  remove-All id (x ∷ g) all =
      if-elim (All P) (x.0 == id) (λ s. remove-All id g all.1) (λ s. (all.0, remove-All id g all.1))

max_epoch_on-le : (n : ℕ) (os : List StreamOwner) → n ≤ max_epoch_on n os
unfolding max_epoch_on
max_epoch_on-le n [] = omega arith
max_epoch_on-le n (o ∷ os) = omega (arith, max_epoch_on-le (max n o.epoch) os)

rows_into-All :
    (n m : ℕ) (os : List StreamOwner) (g : Map Text Owner)
    → saturating_add64 (max_epoch_on m os) 1 ≤ n
    → All (Passed n) g
    → All (Passed n) (rows_into os g)
unfolding rows_into max_epoch_on
rows_into-All n m [] g h all = all
rows_into-All n m (o ∷ os) g h all = rows_into-All n (max m o.epoch) os _ h (
    insert-All (Passed n) o.stream_id (o.owner_node_id, o.epoch) g
      (λ i. omega (arith, max_epoch_on-le (max m o.epoch) os)) all)

-- Taking an epoch is not to be the call that wraps the counter around.
abbrev pub Fits : Call → OwnershipTracker → Type 0
Fits (setting id node epoch) t = Unit
Fits (clearing id) t = Unit
Fits (clearing_epoch id epoch) t = Unit
Fits (clearing_node node) t = Unit
Fits (hydrating rows) t = Unit
Fits (syncing rows) t = Unit
Fits (advancing epoch) t = Unit
Fits taking t = t.next_epoch < u64_mod - 1

-- Let the counter be past every tracked epoch; an epoch that is the last `u64` counts as passed by a
-- counter that is the last one too. Then it is so after every call, whatever epochs the calls and
-- the rows bring, and whatever the counter is, except that it is not to be the last `u64` where an
-- epoch is taken.
pub run_call-Ahead : (c : Call) (t : OwnershipTracker) → Fits c t → Ahead t → Ahead (run_call c t)
unfolding run_call set clear clear_if_epoch clear_for_node hydrate_from sync_from advance_past
    take_next_epoch
run_call-Ahead (setting id node epoch) t small h =
    insert-All (Passed (max t.next_epoch (saturating_add64 epoch 1))) id (node, epoch) t.owners
      (λ i. omega arith)
      (All-weaken (Passed (max t.next_epoch (saturating_add64 epoch 1))) (Passed t.next_epoch)
        t.owners (λ x p. omega arith) h)
run_call-Ahead (clearing id) t small h = remove-All (Passed t.next_epoch) id t.owners h
run_call-Ahead (clearing_epoch id epoch) t small h =
    if-elim (λ (r : OwnershipTracker × Bool). Ahead r.0) (has_epoch epoch (lookup id t.owners))
      (λ e. remove-All (Passed t.next_epoch) id t.owners h) (λ e. h)
run_call-Ahead (clearing_node node) t small h =
    All-keep (Passed t.next_epoch) (λ (x : Text × Owner). not (nat_eqb x.1.0 node)) t.owners h
run_call-Ahead (hydrating rows) t small h = rows_into-All _ 0 rows [] (omega arith) tt
run_call-Ahead (syncing rows) t small h = rows_into-All _ 0 rows [] (omega arith) tt
run_call-Ahead (advancing epoch) t small h =
    All-weaken (Passed (max t.next_epoch (saturating_add64 epoch 1))) (Passed t.next_epoch) t.owners
      (λ x p. omega arith) h
run_call-Ahead taking t small h =
    All-weaken (Passed (fetch_add_one t.next_epoch)) (Passed t.next_epoch) t.owners
      (λ x p. omega arith) h
