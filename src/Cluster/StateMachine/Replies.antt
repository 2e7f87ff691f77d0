-- ===== src/Cluster/StateMachine/Replies.antt =====
-- src/cluster/raft/state_machine.rs: a property of the tables passes from the database call of a
-- command to the reply.
use librtmp2_server.Base.{ℕ, Bool, true, false, Option, none, some, List, Text, any_of, if-elim}
use librtmp2_server.Db.Tables.{
  Stream, StreamViewer, Database, Fault, Result, ok, err, DbLookup, found, absent, failed,
  StreamAddError, ViewerAddError, OwnerError, StreamDisableOutcome, disabled, missing, stale,
  stream_get,
}
use librtmp2_server.Db.Viewers.{viewer_delete, viewer_list_checked, players_deactivate_for_viewer}
use librtmp2_server.Cluster.StateMachine.Handlers
use librtmp2_server.Cluster.StateMachine.Handlers.{Io, Reply, StateEffect}

module _ (P : Database → Type 0) where
  -- A reply takes its tables from the call before it.
  pub create_reply-Keeps :
      (x : Database × Result (Unit {0}) StreamAddError) → P x.0 → P (Handlers.create_reply x).db
  unfolding Handlers.create_reply
  create_reply-Keeps (d, ok u) h = h
  create_reply-Keeps (d, err StreamAddError.duplicate) h = h
  create_reply-Keeps (d, err StreamAddError.db) h = h

  pub disable_reply-Keeps :
      (id : Text) (x : Database × Option StreamDisableOutcome)
      → P x.0
      → P (Handlers.disable_reply id x).db
  unfolding Handlers.disable_reply
  disable_reply-Keeps id (d, some disabled) h = h
  disable_reply-Keeps id (d, some missing) h = h
  disable_reply-Keeps id (d, some stale) h = h
  disable_reply-Keeps id (d, none) h = h

  pub finalize_reply-Keeps :
      (io : Io) (id : Text) (x : Database × Option Bool)
      → P x.0
      → P (Handlers.finalize_reply io id x).db
  unfolding Handlers.finalize_reply
  finalize_reply-Keeps io id (d, some true) h = h
  finalize_reply-Keeps io id (d, some false) h = h
  finalize_reply-Keeps io id (d, none) h = h

  pub set_enabled_reply-Keeps :
      (io : Io) (id : Text) (x : Database × Bool)
      → P x.0
      → P (Handlers.set_enabled_reply io id x).db
  unfolding Handlers.set_enabled_reply
  set_enabled_reply-Keeps io id (d, true) h = h
  set_enabled_reply-Keeps io id (d, false) h = h

  pub viewer_reply-Keeps :
      (x : Database × Result (Unit {0}) ViewerAddError) → P x.0 → P (Handlers.viewer_reply x).db
  unfolding Handlers.viewer_reply
  viewer_reply-Keeps (d, ok u) h = h
  viewer_reply-Keeps (d, err ViewerAddError.duplicate) h = h
  viewer_reply-Keeps (d, err ViewerAddError.parent_unavailable) h = h
  viewer_reply-Keeps (d, err ViewerAddError.db) h = h

  abbrev pub Revoking : Type 0
  Revoking =
      (fault : Fault) (viewer_id : Text) (d : Database)
      → P d
      → P (players_deactivate_for_viewer fault viewer_id d)

  pub viewer_deleted-Keeps :
      Revoking
      → (io : Io) (viewer_id : Text) (x : Database × Option Bool) → P x.0
      → P (Handlers.viewer_deleted io viewer_id x).db
  unfolding Handlers.viewer_deleted
  viewer_deleted-Keeps revoke io id (d, some true) h = revoke (io 3) id d h
  viewer_deleted-Keeps revoke io id (d, some false) h = h
  viewer_deleted-Keeps revoke io id (d, none) h = h

  pub setting_reply-Keeps :
      (sent : List StateEffect) (x : Database × Result (Unit {0}) Text)
      → P x.0
      → P (Handlers.setting_reply sent x).db
  unfolding Handlers.setting_reply
  setting_reply-Keeps sent (d, ok u) h = h
  setting_reply-Keeps sent (d, err e) h = h

  pub acquire_reply-Keeps :
      (sent : List StateEffect) (x : Database × Result ℕ OwnerError)
      → P x.0
      → P (Handlers.acquire_reply sent x).db
  unfolding Handlers.acquire_reply
  acquire_reply-Keeps sent (d, ok epoch) h = h
  acquire_reply-Keeps sent (d, err OwnerError.conflict) h = h
  acquire_reply-Keeps sent (d, err OwnerError.not_found) h = h
  acquire_reply-Keeps sent (d, err OwnerError.db) h = h

  pub release_reply-Keeps :
      {A : Type 0} (x : Database × Result A OwnerError) → P x.0 → P (Handlers.release_reply x).db
  unfolding Handlers.release_reply
  release_reply-Keeps (d, ok released) h = h
  release_reply-Keeps (d, err e) h = h

module _ (P : Database → Type 0) (revoke : Revoking P)
    (del : (fault : Fault) (stream_id viewer_id : Text) (d : Database)
      → P d
      → P (viewer_delete fault stream_id viewer_id d).0) where
  delete_unless_default-Keeps :
      (io : Io) (s v : Text) (vs : List StreamViewer) (l : DbLookup Stream) (d : Database)
      → P d
      → P (Handlers.delete_unless_default io s v vs l d).db
  unfolding Handlers.delete_unless_default
  delete_unless_default-Keeps io s v vs (found r) d h =
      if-elim (λ (x : Reply). P x.db) (any_of (Handlers.is_default_viewer v r) vs) (λ e. h)
        (λ e. viewer_deleted-Keeps P revoke io v _ (del (io 2) s v d h))
  delete_unless_default-Keeps io s v vs absent d h =
      viewer_deleted-Keeps P revoke io v _ (del (io 2) s v d h)
  delete_unless_default-Keeps io s v vs failed d h = h

  delete_listed_viewer-Keeps :
      (io : Io) (s v : Text) (vs : Option (List StreamViewer)) (d : Database)
      → P d
      → P (Handlers.delete_listed_viewer io s v vs d).db
  unfolding Handlers.delete_listed_viewer
  delete_listed_viewer-Keeps io s v none d h = h
  delete_listed_viewer-Keeps io s v (some vs) d h =
      if-elim (λ (x : Reply). P x.db) (Handlers.would_remove_last v vs) (λ e. h)
        (λ e. delete_unless_default-Keeps io s v vs (stream_get (io 1) s d) d h)

  pub delete_viewer-Keeps :
      (io : Io) (s v : Text) (d : Database) → P d → P (Handlers.delete_viewer io s v d).db
  unfolding Handlers.delete_viewer
  delete_viewer-Keeps io s v d h =
      delete_listed_viewer-Keeps io s v (viewer_list_checked (io 0) s d) d h
