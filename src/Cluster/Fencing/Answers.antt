-- ===== src/Cluster/Fencing/Answers.antt =====
-- src/cluster/raft/state_machine.rs: the one epoch that a command can answer is the log index.
use librtmp2_server.Base.{
  ℕ, suc, max, ◌≡◌, refl, Bool, true, false, Option, none, some, List, [], ◌∷◌, Text, any_of,
  map_or, if-elim, not, nat_eqb, if◌then◌else◌,
}
use librtmp2_server.Db.Tables.{
  StreamOwner, Fault, Stream, StreamViewer, Database, Result, ok, err, DbLookup, found, absent,
  failed, StreamAddError, ViewerAddError, OwnerError, StreamDisableOutcome, disabled, missing,
  stale, stream_get,
}
use librtmp2_server.Db.Streams.{stream_disable, token_replace}
use librtmp2_server.Db.Viewers.{viewer_delete}
use librtmp2_server.Db.Owners.{stream_owner_acquire, acquire_row, find_owner, stream_available}
use librtmp2_server.Cluster.Command
use librtmp2_server.Cluster.Command.{
  ClusterCommand, ClusterResponse, done, owner_epoch, released, error, SeedFromStandalone,
}
use librtmp2_server.Cluster.StateMachine.Handlers
use librtmp2_server.Cluster.StateMachine.Handlers.{Io, Reply, StateEffect}
use librtmp2_server.Cluster.StateMachine.Seed
use librtmp2_server.Cluster.StateMachine.Seed.{apply_command}
use librtmp2_server.Cluster.StateMachine.Apply
use librtmp2_server.Cluster.StateMachine.Apply.{apply_normal}

unfoldable pub epoch_of : ClusterResponse → Option ℕ
epoch_of done = none
epoch_of ClusterResponse.duplicate = none
epoch_of ClusterResponse.not_found = none
epoch_of ClusterResponse.conflict = none
epoch_of (owner_epoch e) = some e
epoch_of (released i) = none
epoch_of (error msg) = none

-- An answered epoch is `at`.
unfoldable pub Granted : ℕ → ClusterResponse → Type 0
Granted at r = map_or (epoch_of r) Unit (λ e. e ≡ at)

module _ (at : ℕ) where
  abbrev Grants : Reply → Type 0
  Grants r = Granted at r.response

  create-Granted :
      (x : Database × Result (Unit {0}) StreamAddError) → Grants (Handlers.create_reply x)
  unfolding Handlers.create_reply Granted epoch_of
  create-Granted (d, ok u) = tt
  create-Granted (d, err StreamAddError.duplicate) = tt
  create-Granted (d, err StreamAddError.db) = tt

  disable-Granted :
      (id : Text) (x : Database × Option StreamDisableOutcome)
      → Grants (Handlers.disable_reply id x)
  unfolding Handlers.disable_reply Granted epoch_of
  disable-Granted id (d, some disabled) = tt
  disable-Granted id (d, some missing) = tt
  disable-Granted id (d, some stale) = tt
  disable-Granted id (d, none) = tt

  not_pending-Granted : (l : DbLookup Stream) → Granted at (Handlers.not_pending l)
  unfolding Handlers.not_pending Granted epoch_of
  not_pending-Granted absent = tt
  not_pending-Granted failed = tt
  not_pending-Granted (found s) = tt

  finalize-Granted :
      (io : Io) (id : Text) (x : Database × Option Bool) → Grants (Handlers.finalize_reply io id x)
  unfolding Handlers.finalize_reply
  finalize-Granted io id (d, some true) = unfold Granted epoch_of in tt
  finalize-Granted io id (d, some false) = not_pending-Granted (stream_get (io 1) id d)
  finalize-Granted io id (d, none) = unfold Granted epoch_of in tt

  not_updated-Granted : (l : DbLookup Stream) → Granted at (Handlers.not_updated l)
  unfolding Handlers.not_updated Granted epoch_of
  not_updated-Granted absent = tt
  not_updated-Granted failed = tt
  not_updated-Granted (found s) = tt

  set_enabled-Granted :
      (io : Io) (id : Text) (x : Database × Bool) → Grants (Handlers.set_enabled_reply io id x)
  unfolding Handlers.set_enabled_reply
  set_enabled-Granted io id (d, true) = unfold Granted epoch_of in tt
  set_enabled-Granted io id (d, false) = not_updated-Granted (stream_get (io 1) id d)

  viewer-Granted :
      (x : Database × Result (Unit {0}) ViewerAddError) → Grants (Handlers.viewer_reply x)
  unfolding Handlers.viewer_reply Granted epoch_of
  viewer-Granted (d, ok u) = tt
  viewer-Granted (d, err ViewerAddError.duplicate) = tt
  viewer-Granted (d, err ViewerAddError.parent_unavailable) = tt
  viewer-Granted (d, err ViewerAddError.db) = tt

  deleted-Granted :
      (io : Io) (v : Text) (x : Database × Option Bool) → Grants (Handlers.viewer_deleted io v x)
  unfolding Handlers.viewer_deleted Granted epoch_of
  deleted-Granted io v (d, some true) = tt
  deleted-Granted io v (d, some false) = tt
  deleted-Granted io v (d, none) = tt

  unless_default-Granted :
      (io : Io) (s v : Text) (vs : List StreamViewer) (l : DbLookup Stream) (d : Database)
      → Grants (Handlers.delete_unless_default io s v vs l d)
  unfolding Handlers.delete_unless_default
  unless_default-Granted io s v vs (found r) d =
      if-elim Grants (any_of (Handlers.is_default_viewer v r) vs)
        (λ e. unfold Granted epoch_of in tt)
        (λ e. deleted-Granted io v (viewer_delete (io 2) s v d))
  unless_default-Granted io s v vs absent d = deleted-Granted io v (viewer_delete (io 2) s v d)
  unless_default-Granted io s v vs failed d = unfold Granted epoch_of in tt

  listed-Granted :
      (io : Io) (s v : Text) (vs : Option (List StreamViewer)) (d : Database)
      → Grants (Handlers.delete_listed_viewer io s v vs d)
  unfolding Handlers.delete_listed_viewer
  listed-Granted io s v none d = unfold Granted epoch_of in tt
  listed-Granted io s v (some vs) d =
      if-elim Grants (Handlers.would_remove_last v vs) (λ e. unfold Granted epoch_of in tt)
        (λ e. unless_default-Granted io s v vs (stream_get (io 1) s d) d)

  setting-Granted :
      (sent : List StateEffect) (x : Database × Result (Unit {0}) Text)
      → Grants (Handlers.setting_reply sent x)
  unfolding Handlers.setting_reply Granted epoch_of
  setting-Granted sent (d, ok u) = tt
  setting-Granted sent (d, err e) = tt

  release-Granted :
      {A : Type 0} (x : Database × Result A OwnerError) → Grants (Handlers.release_reply x)
  unfolding Handlers.release_reply Granted epoch_of
  release-Granted (d, ok n) = tt
  release-Granted (d, err e) = tt

  release_index-Granted :
      {A : Type 0} (index : ℕ) (x : Database × Result A OwnerError)
      → Granted at (Apply.release_index index (Reply.response (Handlers.release_reply x)))
  unfolding Handlers.release_reply Apply.release_index Granted epoch_of
  release_index-Granted index (d, ok n) = tt
  release_index-Granted index (d, err e) = tt

  pending-Granted :
      (id : Text) (sent : List StateEffect) (x : Database × Option Bool)
      → Grants (Seed.pending_seeded id sent x).0
  unfolding Seed.pending_seeded Granted epoch_of
  pending-Granted id sent (d, some b) = tt
  pending-Granted id sent (d, none) = tt

  seed_pending-Granted :
      (io : Io) (n : ℕ) (ids : List Text) (x : Reply × Bool)
      → Grants x.0
      → Grants (Seed.seed_pending io n ids x)
  unfolding Seed.seed_pending
  seed_pending-Granted io n [] x h = h
  seed_pending-Granted io n (id ∷ ids) (r, false) h = h
  seed_pending-Granted io n (id ∷ ids) (r, true) h =
      seed_pending-Granted io (suc n) ids _
        (pending-Granted id r.effects (stream_disable (io n) id r.db))

  token_on-Granted :
      (io : Io) (n : ℕ) (c : SeedFromStandalone) (t : Text) (x : Database × Result (Unit {0}) Text)
      → Grants (Seed.seed_token_on io n c t x)
  unfolding Seed.seed_token_on
  token_on-Granted io n c t (d, ok u) =
      seed_pending-Granted io n c.pending_delete_stream_ids _ (unfold Granted epoch_of in tt)
  token_on-Granted io n c t (d, err e) = unfold Granted epoch_of in tt

  seed_settings-Granted :
      (io : Io) (n : ℕ) (c : SeedFromStandalone) (t : Option Text) (d : Database)
      → Grants (Seed.seed_settings io n c t d)
  unfolding Seed.seed_settings
  seed_settings-Granted io n c none d =
      seed_pending-Granted io n c.pending_delete_stream_ids _ (unfold Granted epoch_of in tt)
  seed_settings-Granted io n c (some t) d =
      token_on-Granted io (suc n) c t (token_replace (io n) t d)

  after_viewers-Granted :
      (io : Io) (c : SeedFromStandalone) (x : Database × Bool)
      → Grants (Seed.seed_after_viewers io c x)
  unfolding Seed.seed_after_viewers
  after_viewers-Granted io c (d, true) = seed_settings-Granted io _ c c.api_token d
  after_viewers-Granted io c (d, false) = unfold Granted epoch_of in tt

  after_streams-Granted :
      (io : Io) (c : SeedFromStandalone) (x : Database × Bool)
      → Grants (Seed.seed_after_streams io c x)
  unfolding Seed.seed_after_streams
  after_streams-Granted io c (d, true) = after_viewers-Granted io c _
  after_streams-Granted io c (d, false) = unfold Granted epoch_of in tt

  -- An acquisition answers the epoch it is given.
  abbrev Stored : Database × Result ℕ OwnerError → Type 0
  Stored x = (sent : List StateEffect) → Grants (Handlers.acquire_reply sent x)

  refused-Granted : (d : Database) (e : OwnerError) → Stored (d, err e)
  unfolding Handlers.acquire_reply Granted epoch_of
  refused-Granted d OwnerError.conflict sent = tt
  refused-Granted d OwnerError.not_found sent = tt
  refused-Granted d OwnerError.db sent = tt

  acquire_row-Granted :
      (id : Text) (node time : ℕ) (d : Database) (o : Option StreamOwner)
      → Stored (acquire_row id node at time d o)
  unfolding acquire_row
  acquire_row-Granted id node time d none =
      λ sent. unfold Handlers.acquire_reply Granted epoch_of in refl
  acquire_row-Granted id node time d (some o) =
      if-elim Stored (nat_eqb o.owner_node_id node)
        (λ e sent. unfold Handlers.acquire_reply Granted epoch_of in refl)
        (λ e. refused-Granted d OwnerError.conflict)

  blocked-Granted :
      (d : Database) (node : ℕ) (o : Option StreamOwner)
      → Stored (
        d,
        map_or o (err OwnerError.db) (λ (o : StreamOwner).
            if nat_eqb o.owner_node_id node then err OwnerError.db else err OwnerError.conflict),
      )
  blocked-Granted d node none = refused-Granted d OwnerError.db
  blocked-Granted d node (some o) =
      if-elim (λ r. Stored (d, r)) (nat_eqb o.owner_node_id node)
        (λ e. refused-Granted d OwnerError.db) (λ e. refused-Granted d OwnerError.conflict)

  acquire-Granted :
      (f : Fault) (id : Text) (node time : ℕ) (d : Database)
      → Stored (stream_owner_acquire f id node at time d)
  unfolding stream_owner_acquire
  acquire-Granted f id node time d =
      if-elim Stored (not f.query) (λ e. refused-Granted d OwnerError.db)
        (λ e.
          if-elim Stored (not (stream_available id d)) (λ e. refused-Granted d OwnerError.not_found)
            (λ e.
              if-elim Stored (not f.statement)
                (λ e. blocked-Granted d node (find_owner id d.owners))
                (λ e. acquire_row-Granted id node time d (find_owner id d.owners))))

pub apply_normal-Granted :
    (io : Io) (index : ℕ) (cmd : ClusterCommand) (d : Database)
    → Granted (max index 1) (apply_normal io index cmd d).response
unfolding apply_normal apply_command Handlers.create_stream Handlers.begin_delete_stream
    Handlers.finalize_delete_stream Handlers.set_stream_enabled Handlers.create_viewer
    Handlers.delete_viewer Handlers.set_api_token Handlers.release_stream_owner
    Handlers.release_owners_for_node Seed.seed_from_standalone
apply_normal-Granted io index (Command.create_stream c) d = create-Granted _ _
apply_normal-Granted io index (Command.begin_delete_stream c) d = disable-Granted _ c.id _
apply_normal-Granted io index (Command.finalize_delete_stream id) d = finalize-Granted _ io id _
apply_normal-Granted io index (Command.set_stream_enabled id b) d = set_enabled-Granted _ io id _
apply_normal-Granted io index (Command.create_viewer v) d = viewer-Granted _ _
apply_normal-Granted io index (Command.delete_viewer s v) d = listed-Granted _ io s v _ d
apply_normal-Granted io index (Command.set_api_token t) d = setting-Granted _ _ _
apply_normal-Granted io index (Command.acquire_stream_owner c) d =
    acquire-Granted (max index 1) (io 0) c.stream_id c.node_id c.acquired_at d _
apply_normal-Granted io index (Command.release_stream_owner s e) d = release-Granted _ _
apply_normal-Granted io index (Command.release_owners_for_node node e) d =
    release_index-Granted _ _ _
apply_normal-Granted io index (Command.seed_from_standalone c) d = after_streams-Granted _ io c _
apply_normal-Granted io index (Command.set_cluster_id id) d = setting-Granted _ _ _
