-- ===== src/Cluster/StateMachine/Handlers.antt =====
-- src/cluster/raft/state_machine.rs, `apply_command`: what each command does to the tables, which
-- effects it emits and what it answers. `io` gives the faults of the calls into the database, in the
-- order in which the command makes them.
use librtmp2_server.Base.{
  ℕ, Bool, true, false, ◌&&◌, Option, none, some, List, [], ◌∷◌, Text, any_of, length,
  if◌then◌else◌, nat_eqb, text_eq, ◌==◌,
}
use librtmp2_server.Db.Tables.{
  Stream, StreamViewer, Database, Fault, Result, ok, err, DbLookup, found, absent, failed,
  StreamAddError, ViewerAddError, OwnerError, StreamDisableOutcome, disabled, missing, stale,
  legacy_delete_token, stream_get,
}
use librtmp2_server.Db.Streams.{
  stream_add_with_viewer_with_token, stream_disable_expecting, stream_delete_if_pending,
  stream_set_enabled, token_replace,
}
use librtmp2_server.Db.Viewers.{
  viewer_add, viewer_list_checked, viewer_delete, players_deactivate_for_viewer,
}
use librtmp2_server.Db.Owners.{stream_owner_release, stream_owners_release_for_node}
use librtmp2_server.Cluster.Command.{
  CreateStream, BeginDeleteStream, ClusterResponse, done, owner_epoch, error,
}

pub data StateEffect : Type 0 where
  drain_stream clear_drain_stream revoke_viewer api_token : Text → StateEffect
  ownership_changed : StateEffect

pub record Reply : Type 0 where
  pub db : Database
  pub effects : List StateEffect
  pub response : ClusterResponse

abbrev pub db_error : ClusterResponse
db_error = error (b'd' ∷ b'b' ∷ [])

abbrev pub quiet : Database → ClusterResponse → Reply
quiet d r = record { db = d; effects = []; response = r }

abbrev pub Io : Type 0
Io = ℕ → Fault

unfoldable pub is_empty : Text → Bool
is_empty [] = true
is_empty (c ∷ cs) = false

unfoldable pub create_token : CreateStream → Text
create_token c =
    if is_empty c.delete_token
    then legacy_delete_token c.stream.id c.stream.publish_key
    else c.delete_token

unfoldable pub create_reply : Database × Result (Unit {0}) StreamAddError → Reply
create_reply (d, ok u) = quiet d done
create_reply (d, err StreamAddError.duplicate) = quiet d ClusterResponse.duplicate
create_reply (d, err StreamAddError.db) = quiet d db_error

unfoldable pub create_stream : Io → CreateStream → Database → Reply
create_stream io c d =
    create_reply
      (stream_add_with_viewer_with_token (io 0) c.stream c.default_viewer (create_token c) d)

unfoldable pub disable_reply : Text → Database × Option StreamDisableOutcome → Reply
disable_reply id (d, some disabled) = record {
  db = d;
  effects = drain_stream id ∷ [];
  response = done;
}
disable_reply id (d, some missing) = quiet d ClusterResponse.not_found
disable_reply id (d, some stale) = quiet d ClusterResponse.conflict
disable_reply id (d, none) = quiet d db_error

unfoldable pub begin_delete_stream : Io → BeginDeleteStream → Database → Reply
begin_delete_stream io c d =
    disable_reply c.id
      (stream_disable_expecting (io 0) c.id c.expected_created_at c.expected_delete_token d)

-- After a finalize that deleted nothing.
unfoldable pub not_pending : DbLookup Stream → ClusterResponse
not_pending absent = ClusterResponse.not_found
not_pending failed = db_error
not_pending (found s) = ClusterResponse.conflict

unfoldable pub finalize_reply : Io → Text → Database × Option Bool → Reply
finalize_reply io id (d, some true) = record {
  db = d;
  effects = clear_drain_stream id ∷ [];
  response = done;
}
finalize_reply io id (d, some false) = quiet d (not_pending (stream_get (io 1) id d))
finalize_reply io id (d, none) = quiet d db_error

unfoldable pub finalize_delete_stream : Io → Text → Database → Reply
finalize_delete_stream io id d = finalize_reply io id (stream_delete_if_pending (io 0) id d)

-- After an update that changed nothing.
unfoldable pub not_updated : DbLookup Stream → ClusterResponse
not_updated absent = ClusterResponse.not_found
not_updated failed = db_error
not_updated (found s) = db_error

unfoldable pub set_enabled_reply : Io → Text → Database × Bool → Reply
set_enabled_reply io id (d, true) = quiet d done
set_enabled_reply io id (d, false) = quiet d (not_updated (stream_get (io 1) id d))

unfoldable pub set_stream_enabled : Io → Text → Bool → Database → Reply
set_stream_enabled io id enabled d =
    set_enabled_reply io id (stream_set_enabled (io 0) id enabled d)

unfoldable pub viewer_reply : Database × Result (Unit {0}) ViewerAddError → Reply
viewer_reply (d, ok u) = quiet d done
viewer_reply (d, err ViewerAddError.duplicate) = quiet d ClusterResponse.duplicate
viewer_reply (d, err ViewerAddError.parent_unavailable) = quiet d ClusterResponse.conflict
viewer_reply (d, err ViewerAddError.db) = quiet d db_error

unfoldable pub create_viewer : Io → StreamViewer → Database → Reply
create_viewer io v d = viewer_reply (viewer_add (io 0) v d)

unfoldable pub is_named : Text → StreamViewer → Bool
is_named viewer_id v = v.id == viewer_id

unfoldable pub would_remove_last : Text → List StreamViewer → Bool
would_remove_last viewer_id vs = nat_eqb (length vs) 1 && any_of (is_named viewer_id) vs

unfoldable pub is_default_viewer : Text → Stream → StreamViewer → Bool
is_default_viewer viewer_id s v = v.id == viewer_id && v.play_key == s.play_key

unfoldable pub viewer_deleted : Io → Text → Database × Option Bool → Reply
viewer_deleted io viewer_id (d, some true) = record {
  db = players_deactivate_for_viewer (io 3) viewer_id d;
  effects = revoke_viewer viewer_id ∷ [];
  response = done;
}
viewer_deleted io viewer_id (d, some false) = quiet d ClusterResponse.not_found
viewer_deleted io viewer_id (d, none) = quiet d db_error

unfoldable pub delete_unless_default :
    Io → Text → Text → List StreamViewer → DbLookup Stream → Database → Reply
delete_unless_default io stream_id viewer_id vs (found s) d =
    if any_of (is_default_viewer viewer_id s) vs
    then quiet d ClusterResponse.conflict
    else viewer_deleted io viewer_id (viewer_delete (io 2) stream_id viewer_id d)
delete_unless_default io stream_id viewer_id vs absent d =
    viewer_deleted io viewer_id (viewer_delete (io 2) stream_id viewer_id d)
delete_unless_default io stream_id viewer_id vs failed d = quiet d db_error

unfoldable pub delete_listed_viewer :
    Io → Text → Text → Option (List StreamViewer) → Database → Reply
delete_listed_viewer io stream_id viewer_id none d = quiet d db_error
delete_listed_viewer io stream_id viewer_id (some vs) d =
    if would_remove_last viewer_id vs
    then quiet d ClusterResponse.conflict
    else delete_unless_default io stream_id viewer_id vs (stream_get (io 1) stream_id d) d

unfoldable pub delete_viewer : Io → Text → Text → Database → Reply
delete_viewer io stream_id viewer_id d =
    delete_listed_viewer io stream_id viewer_id (viewer_list_checked (io 0) stream_id d) d

unfoldable pub setting_reply : List StateEffect → Database × Result (Unit {0}) Text → Reply
setting_reply effects (d, ok u) = record { db = d; effects = effects; response = done }
setting_reply effects (d, err e) = quiet d (error e)

unfoldable pub set_api_token : Io → Text → Database → Reply
set_api_token io token d = setting_reply (api_token token ∷ []) (token_replace (io 0) token d)

-- The effects of a successful acquisition differ between `apply` and `apply_command`.
unfoldable pub acquire_reply : List StateEffect → Database × Result ℕ OwnerError → Reply
acquire_reply effects (d, ok epoch) = record {
  db = d;
  effects = effects;
  response = owner_epoch epoch;
}
acquire_reply effects (d, err OwnerError.conflict) = quiet d ClusterResponse.conflict
acquire_reply effects (d, err OwnerError.not_found) = quiet d ClusterResponse.not_found
acquire_reply effects (d, err OwnerError.db) = quiet d db_error

unfoldable pub release_reply : {A : Type 0} → Database × Result A OwnerError → Reply
release_reply (d, ok released) = record {
  db = d;
  effects = ownership_changed ∷ [];
  response = done;
}
release_reply (d, err e) = quiet d db_error

unfoldable pub release_stream_owner : Io → Text → ℕ → Database → Reply
release_stream_owner io stream_id epoch d =
    release_reply (stream_owner_release (io 0) stream_id epoch d)

unfoldable pub release_owners_for_node : Io → ℕ → ℕ → Database → Reply
release_owners_for_node io node max_epoch d =
    release_reply (stream_owners_release_for_node (io 0) node max_epoch d)
