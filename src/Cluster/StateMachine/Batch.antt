-- ===== src/Cluster/StateMachine/Batch.antt =====
-- src/cluster/raft/state_machine.rs, `apply`: what every entry of a batch preserves, the batch
-- preserves, also where it ends in a storage error.
use librtmp2_server.Base.{ℕ, Bool, true, false, Option, none, some, List, [], ◌∷◌, All, if-elim}
use librtmp2_server.Db.Tables.{Database}
use librtmp2_server.Cluster.Command.{ClusterCommand, ClusterResponse}
use librtmp2_server.Cluster.StateMachine.Handlers.{Reply}
use librtmp2_server.Cluster.StateMachine.Apply.{
  Entry, EntryPayload, blank, normal, membership, SqliteStateMachine, apply_normal, is_error,
  persist_applied_tx, persisted, membership_stored, command_applied, apply_payload, apply_entry,
  answered, apply_from, apply,
}

module _ {L M : Type 0} (index : L → ℕ) (P : Database → Type 0) where
  -- Every command keeps `P` at the place of entry `e`.
  abbrev pub EntryKeeps : Entry L M → Type 0
  EntryKeeps e =
      (cmd : ClusterCommand) (d : Database)
      → P d
      → P (apply_normal e.calls (index e.log_id) cmd d).db

  persist-Keeps :
      (b : Bool) (l : L) (mem : Option (L × M)) (sm : SqliteStateMachine L M)
      → P sm.db
      → P (persist_applied_tx index b l mem sm).0.db
  unfolding persist_applied_tx
  persist-Keeps true l mem sm h = h
  persist-Keeps false l mem sm h = h

  persisted-Keeps :
      (r : ClusterResponse) (x : SqliteStateMachine L M × Bool)
      → P x.0.db
      → P (persisted index r x).0.db
  unfolding persisted
  persisted-Keeps r (sm, true) h = h
  persisted-Keeps r (sm, false) h = h

  membership_stored-Keeps :
      (mem : L × M) (x : SqliteStateMachine L M × Bool)
      → P x.0.db
      → P (membership_stored index mem x).0.db
  unfolding membership_stored
  membership_stored-Keeps mem (sm, true) h = h
  membership_stored-Keeps mem (sm, false) h = h

  command_applied-Keeps :
      (e : Entry L M) (r : Reply) (sm : SqliteStateMachine L M)
      → P r.db
      → P (command_applied index e r sm).0.db
  unfolding command_applied
  command_applied-Keeps e r sm h =
      if-elim (λ (x : SqliteStateMachine L M × Option ClusterResponse). P x.0.db)
        (is_error r.response) (λ e. h)
        (λ e'. persisted-Keeps r.response _ (persist-Keeps e.persists e.log_id none _ h))

  apply_payload-Keeps :
      (e : Entry L M) (p : EntryPayload M) (sm : SqliteStateMachine L M)
      → EntryKeeps e
      → P sm.db
      → P (apply_payload index e p sm).0.db
  unfolding apply_payload
  apply_payload-Keeps e blank sm k h =
      persisted-Keeps _ _ (persist-Keeps e.persists e.log_id none sm h)
  apply_payload-Keeps e (normal cmd) sm k h = command_applied-Keeps e _ sm (k cmd sm.db h)
  apply_payload-Keeps e (membership m) sm k h =
      membership_stored-Keeps _ _ (persist-Keeps e.persists e.log_id (some (e.log_id, m)) sm h)

  pub apply_entry-Keeps :
      (e : Entry L M) (sm : SqliteStateMachine L M)
      → EntryKeeps e
      → P sm.db
      → P (apply_entry index e sm).0.db
  unfolding apply_entry
  apply_entry-Keeps e sm k h = apply_payload-Keeps e e.payload sm k h

  answered-Keeps :
      (rs : List ClusterResponse) (x : SqliteStateMachine L M × Option ClusterResponse)
      → P x.0.db
      → P (answered index rs x).0.db
  unfolding answered
  answered-Keeps rs (sm, some r) h = h
  answered-Keeps rs (sm, none) h = h

  apply_from-Keeps :
      (es : List (Entry L M)) (x : SqliteStateMachine L M × Option (List ClusterResponse))
      → All EntryKeeps es
      → P x.0.db
      → P (apply_from index es x).0.db
  unfolding apply_from
  apply_from-Keeps [] x k h = h
  apply_from-Keeps (e ∷ es) (sm, none) k h = h
  apply_from-Keeps (e ∷ es) (sm, some rs) k h =
      apply_from-Keeps es _ k.1 (answered-Keeps rs _ (apply_entry-Keeps e sm k.0 h))

  pub apply-Keeps :
      (es : List (Entry L M)) (sm : SqliteStateMachine L M)
      → All EntryKeeps es
      → P sm.db
      → P (apply index es sm).0.db
  unfolding apply
  apply-Keeps es sm k h = apply_from-Keeps es (sm, some []) k h
