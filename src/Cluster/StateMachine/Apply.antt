-- ===== src/Cluster/StateMachine/Apply.antt =====
-- src/cluster/raft/state_machine.rs, `apply`: a batch of log entries. The log ids and the
-- memberships are openraft's. `calls` gives the faults of the database calls of an entry, and
-- `persists` tells whether `persist_applied_tx` succeeds, the serialization in it included.
use librtmp2_server.Base.{
  ℕ, max, Bool, true, false, Option, none, some, List, [], ◌∷◌, ◌++◌, map_or, if◌then◌else◌,
}
use librtmp2_server.Db.Tables.{Database}
use librtmp2_server.Db.Owners.{stream_owner_acquire}
use librtmp2_server.Cluster.Command
use librtmp2_server.Cluster.Command.{
  AcquireStreamOwner, ClusterCommand, acquire_stream_owner, ClusterResponse, done, released, error,
}
use librtmp2_server.Cluster.StateMachine.Handlers.{
  Io, Reply, StateEffect, ownership_changed, acquire_reply,
}
use librtmp2_server.Cluster.StateMachine.Seed.{apply_command}

pub data EntryPayload (M : Type 0) : Type 0 where
  blank : EntryPayload M
  normal : ClusterCommand → EntryPayload M
  membership : M → EntryPayload M

pub record Entry (L M : Type 0) : Type 0 where
  pub log_id : L
  pub payload : EntryPayload M
  pub calls : Io
  pub persists : Bool

-- The tables with the two rows of `raft_meta` that `apply` writes, and the fields in memory.
pub record SqliteStateMachine (L M : Type 0) : Type 0 where
  pub db : Database
  pub meta_last_applied : Option L
  pub meta_last_membership : Option (L × M)
  pub last_applied : Option L
  pub last_membership : Option (L × M)
  pub effects : List StateEffect

-- `ReleaseOwnersForNode` answers with the log index where the command answers `Ok`.
unfoldable pub release_index : ℕ → ClusterResponse → ClusterResponse
release_index index done = released index
release_index index ClusterResponse.duplicate = ClusterResponse.duplicate
release_index index ClusterResponse.not_found = ClusterResponse.not_found
release_index index ClusterResponse.conflict = ClusterResponse.conflict
release_index index (ClusterResponse.owner_epoch e) = ClusterResponse.owner_epoch e
release_index index (released i) = released i
release_index index (error msg) = error msg

-- The command of an entry at a log index. An acquisition takes the index as its epoch.
unfoldable pub apply_normal : Io → ℕ → ClusterCommand → Database → Reply
apply_normal io index (Command.acquire_stream_owner c) d =
    acquire_reply (ownership_changed ∷ [])
      (stream_owner_acquire (io 0) c.stream_id c.node_id (max index 1) c.acquired_at d)
apply_normal io index (Command.release_owners_for_node node max_epoch) d =
    let r = apply_command io (Command.release_owners_for_node node max_epoch) d in
    record r { response = release_index (max index 1) r.response }
apply_normal io index (Command.create_stream c) d = apply_command io (Command.create_stream c) d
apply_normal io index (Command.begin_delete_stream c) d =
    apply_command io (Command.begin_delete_stream c) d
apply_normal io index (Command.finalize_delete_stream id) d =
    apply_command io (Command.finalize_delete_stream id) d
apply_normal io index (Command.set_stream_enabled id b) d =
    apply_command io (Command.set_stream_enabled id b) d
apply_normal io index (Command.create_viewer v) d = apply_command io (Command.create_viewer v) d
apply_normal io index (Command.delete_viewer s v) d = apply_command io (Command.delete_viewer s v) d
apply_normal io index (Command.set_api_token t) d = apply_command io (Command.set_api_token t) d
apply_normal io index (Command.release_stream_owner s e) d =
    apply_command io (Command.release_stream_owner s e) d
apply_normal io index (Command.seed_from_standalone c) d =
    apply_command io (Command.seed_from_standalone c) d
apply_normal io index (Command.set_cluster_id id) d = apply_command io (Command.set_cluster_id id) d

unfoldable pub is_error : ClusterResponse → Bool
is_error done = false
is_error ClusterResponse.duplicate = false
is_error ClusterResponse.not_found = false
is_error ClusterResponse.conflict = false
is_error (ClusterResponse.owner_epoch e) = false
is_error (released i) = false
is_error (error msg) = true

module _ {L M : Type 0} (index : L → ℕ) where
  -- The membership row and the applied row are written in one transaction.
  unfoldable pub persist_applied_tx :
      Bool → L → Option (L × M) → SqliteStateMachine L M → SqliteStateMachine L M × Bool
  persist_applied_tx persists log_id mem sm =
      if persists
      then (
        record sm {
          meta_last_applied = some log_id;
          meta_last_membership = map_or mem sm.meta_last_membership some;
          last_applied = some log_id;
        },
        true,
      )
      else (sm, false)

  unfoldable pub persisted :
      ClusterResponse
      → SqliteStateMachine L M × Bool
      → SqliteStateMachine L M × Option ClusterResponse
  persisted r (sm, true) = (sm, some r)
  persisted r (sm, false) = (sm, none)

  -- `*self.last_membership.lock() = stored`.
  unfoldable pub membership_stored :
      L × M → SqliteStateMachine L M × Bool → SqliteStateMachine L M × Option ClusterResponse
  membership_stored mem (sm, true) = (record sm { last_membership = some mem }, some done)
  membership_stored mem (sm, false) = (sm, none)

  unfoldable pub command_applied :
      Entry L M → Reply → SqliteStateMachine L M → SqliteStateMachine L M × Option ClusterResponse
  command_applied e r sm =
      let sm' = record sm { db = r.db; effects = sm.effects ++ r.effects } in
      if is_error r.response
      then (sm', none)
      else persisted r.response (persist_applied_tx e.persists e.log_id none sm')

  -- One entry: `none` is the storage error that ends the batch.
  unfoldable pub apply_payload :
      Entry L M
      → EntryPayload M
      → SqliteStateMachine L M
      → SqliteStateMachine L M × Option ClusterResponse
  apply_payload e blank sm = persisted done (persist_applied_tx e.persists e.log_id none sm)
  apply_payload e (normal cmd) sm =
      command_applied e (apply_normal e.calls (index e.log_id) cmd sm.db) sm
  apply_payload e (membership m) sm =
      membership_stored (e.log_id, m)
        (persist_applied_tx e.persists e.log_id (some (e.log_id, m)) sm)

  unfoldable pub apply_entry :
      Entry L M → SqliteStateMachine L M → SqliteStateMachine L M × Option ClusterResponse
  apply_entry e sm = apply_payload e e.payload sm

  unfoldable pub answered :
      List ClusterResponse
      → SqliteStateMachine L M × Option ClusterResponse
      → SqliteStateMachine L M × Option (List ClusterResponse)
  answered responses (sm, some r) = (sm, some (responses ++ (r ∷ [])))
  answered responses (sm, none) = (sm, none)

  -- The loop over the entries, with the responses so far; `none` is the storage error.
  unfoldable pub apply_from :
      List (Entry L M)
      → SqliteStateMachine L M × Option (List ClusterResponse)
      → SqliteStateMachine L M × Option (List ClusterResponse)
  apply_from [] s = s
  apply_from (e ∷ es) (sm, none) = (sm, none)
  apply_from (e ∷ es) (sm, some responses) = apply_from es (answered responses (apply_entry e sm))

  unfoldable pub apply :
      List (Entry L M)
      → SqliteStateMachine L M
      → SqliteStateMachine L M × Option (List ClusterResponse)
  apply es sm = apply_from es (sm, some [])
