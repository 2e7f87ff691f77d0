-- ===== src/Cluster/StateMachine/Stable.antt =====
-- src/cluster/raft/state_machine.rs: what every database call preserves, every command and every
-- log entry preserves.
use librtmp2_server.Base.{
  ℕ, suc, max, ◌≡◌, Bool, true, false, Option, none, some, List, [], ◌∷◌, Text, Map, length,
}
use librtmp2_server.Db.Tables.{
  Stream, StreamViewer, Database, Fault, Result, ok, err, StreamAddError, ViewerAddError,
}
use librtmp2_server.Db.Streams.{
  stream_insert_only_with_token, stream_add_with_viewer_with_token, stream_disable_expecting,
  stream_disable, stream_set_enabled, stream_delete_if_pending, setting_set, token_replace,
}
use librtmp2_server.Db.Viewers.{viewer_add}
use librtmp2_server.Db.Owners.{
  stream_owner_acquire, stream_owner_release, stream_owners_release_for_node,
}
use librtmp2_server.Cluster.Command
use librtmp2_server.Cluster.Command.{ClusterCommand, SeedFromStandalone}
use librtmp2_server.Cluster.StateMachine.Handlers
use librtmp2_server.Cluster.StateMachine.Handlers.{Io, Reply, StateEffect}
use librtmp2_server.Cluster.StateMachine.Replies
use librtmp2_server.Cluster.StateMachine.Seed
use librtmp2_server.Cluster.StateMachine.Seed.{apply_command}
use librtmp2_server.Cluster.StateMachine.Apply.{apply_normal}

-- `P` survives every database call whose fault is `Good`, an acquisition at `epoch` included.
pub record Stable (P : Database → Type 0) (Good : Fault → Type 0) (epoch : ℕ) : Type 0 where
  pub stream_add :
      (f : Fault) (s : Stream) (v : StreamViewer) (token : Text) (d : Database)
      → Good f
      → P d
      → P (stream_add_with_viewer_with_token f s v token d).0
  pub insert_only :
      (f : Fault) (s : Stream) (token : Text) (d : Database)
      → Good f
      → P d
      → P (stream_insert_only_with_token f s token d).0
  pub disable :
      (f : Fault) (id : Text) (created : Option ℕ) (token : Option Text) (d : Database)
      → P d
      → P (stream_disable_expecting f id created token d).0
  pub set_enabled :
      (f : Fault) (id : Text) (enabled : Bool) (d : Database)
      → P d
      → P (stream_set_enabled f id enabled d).0
  pub delete_if_pending :
      (f : Fault) (id : Text) (d : Database) → P d → P (stream_delete_if_pending f id d).0
  pub viewer_added :
      (f : Fault) (v : StreamViewer) (d : Database) → Good f → P d → P (viewer_add f v d).0
  pub viewer_deleted :
      (io : Io) (s v : Text) (d : Database) → P d → P (Handlers.delete_viewer io s v d).db
  pub setting : (f : Fault) (key val : Text) (d : Database) → P d → P (setting_set f key val d).0
  pub acquire :
      (f : Fault) (id : Text) (node at : ℕ) (d : Database)
      → P d
      → P (stream_owner_acquire f id node epoch at d).0
  pub release :
      (f : Fault) (id : Text) (e : ℕ) (d : Database) → P d → P (stream_owner_release f id e d).0
  pub release_node :
      (f : Fault) (node max_epoch : ℕ) (d : Database)
      → P d
      → P (stream_owners_release_for_node f node max_epoch d).0

module _ {P : Database → Type 0} {Good : Fault → Type 0} {epoch : ℕ} (st : Stable P Good epoch)
    (io : Io) (good : (n : ℕ) → Good (io n)) where
  stream_seeded-Keeps :
      (x : Database × Result (Unit {0}) StreamAddError) → P x.0 → P (Seed.stream_seeded x).0
  unfolding Seed.stream_seeded
  stream_seeded-Keeps (d, ok u) h = h
  stream_seeded-Keeps (d, err StreamAddError.duplicate) h = h
  stream_seeded-Keeps (d, err StreamAddError.db) h = h

  seed_streams-Keeps :
      (n : ℕ) (tokens : Map Text Text) (ss : List Stream) (x : Database × Bool)
      → P x.0
      → P (Seed.seed_streams io n tokens ss x).0
  unfolding Seed.seed_streams
  seed_streams-Keeps n tokens [] x h = h
  seed_streams-Keeps n tokens (s ∷ ss) (d, false) h = h
  seed_streams-Keeps n tokens (s ∷ ss) (d, true) h =
      seed_streams-Keeps (suc n) tokens ss _
        (stream_seeded-Keeps _ (st.insert_only (io n) s (Seed.seed_token tokens s) d (good n) h))

  viewer_seeded-Keeps :
      (x : Database × Result (Unit {0}) ViewerAddError) → P x.0 → P (Seed.viewer_seeded x).0
  unfolding Seed.viewer_seeded
  viewer_seeded-Keeps (d, ok u) h = h
  viewer_seeded-Keeps (d, err ViewerAddError.duplicate) h = h
  viewer_seeded-Keeps (d, err ViewerAddError.parent_unavailable) h = h
  viewer_seeded-Keeps (d, err ViewerAddError.db) h = h

  seed_viewers-Keeps :
      (n : ℕ) (vs : List StreamViewer) (x : Database × Bool)
      → P x.0
      → P (Seed.seed_viewers io n vs x).0
  unfolding Seed.seed_viewers
  seed_viewers-Keeps n [] x h = h
  seed_viewers-Keeps n (v ∷ vs) (d, false) h = h
  seed_viewers-Keeps n (v ∷ vs) (d, true) h =
      seed_viewers-Keeps (suc n) vs _
        (viewer_seeded-Keeps _ (st.viewer_added (io n) v d (good n) h))

  pending_seeded-Keeps :
      (id : Text) (sent : List StateEffect) (x : Database × Option Bool)
      → P x.0
      → P (Seed.pending_seeded id sent x).0.db
  unfolding Seed.pending_seeded
  pending_seeded-Keeps id sent (d, some changed) h = h
  pending_seeded-Keeps id sent (d, none) h = h

  stream_disable-Keeps : (f : Fault) (id : Text) (d : Database) → P d → P (stream_disable f id d).0
  unfolding stream_disable
  stream_disable-Keeps f id d h = st.disable f id none none d h

  seed_pending-Keeps :
      (n : ℕ) (ids : List Text) (x : Reply × Bool) → P x.0.db → P (Seed.seed_pending io n ids x).db
  unfolding Seed.seed_pending
  seed_pending-Keeps n [] x h = h
  seed_pending-Keeps n (id ∷ ids) (r, false) h = h
  seed_pending-Keeps n (id ∷ ids) (r, true) h =
      seed_pending-Keeps (suc n) ids _
        (pending_seeded-Keeps id r.effects _ (stream_disable-Keeps (io n) id r.db h))

  seed_token_on-Keeps :
      (n : ℕ) (c : SeedFromStandalone) (token : Text) (x : Database × Result (Unit {0}) Text)
      → P x.0
      → P (Seed.seed_token_on io n c token x).db
  unfolding Seed.seed_token_on
  seed_token_on-Keeps n c token (d, ok u) h = seed_pending-Keeps n c.pending_delete_stream_ids _ h
  seed_token_on-Keeps n c token (d, err e) h = h

  token_replace-Keeps :
      (f : Fault) (token : Text) (d : Database) → P d → P (token_replace f token d).0
  unfolding token_replace
  token_replace-Keeps f token d h = st.setting f _ token d h

  seed_settings-Keeps :
      (n : ℕ) (c : SeedFromStandalone) (token : Option Text) (d : Database)
      → P d
      → P (Seed.seed_settings io n c token d).db
  unfolding Seed.seed_settings
  seed_settings-Keeps n c none d h = seed_pending-Keeps n c.pending_delete_stream_ids _ h
  seed_settings-Keeps n c (some token) d h =
      seed_token_on-Keeps (suc n) c token _ (token_replace-Keeps (io n) token d h)

  seed_after_viewers-Keeps :
      (c : SeedFromStandalone) (x : Database × Bool) → P x.0 → P (Seed.seed_after_viewers io c x).db
  unfolding Seed.seed_after_viewers
  seed_after_viewers-Keeps c (d, true) h = seed_settings-Keeps _ c c.api_token d h
  seed_after_viewers-Keeps c (d, false) h = h

  seed_after_streams-Keeps :
      (c : SeedFromStandalone) (x : Database × Bool) → P x.0 → P (Seed.seed_after_streams io c x).db
  unfolding Seed.seed_after_streams
  seed_after_streams-Keeps c (d, true) h =
      seed_after_viewers-Keeps c _ (seed_viewers-Keeps (length c.streams) c.viewers (d, true) h)
  seed_after_streams-Keeps c (d, false) h = h

  seed-Keeps :
      (c : SeedFromStandalone) (d : Database) → P d → P (Seed.seed_from_standalone io c d).db
  unfolding Seed.seed_from_standalone
  seed-Keeps c d h =
      seed_after_streams-Keeps c _ (seed_streams-Keeps 0 c.delete_tokens c.streams (d, true) h)

  pub apply_normal-Keeps :
      (index : ℕ)
      → max index 1 ≡ epoch
      → (cmd : ClusterCommand) (d : Database) → P d
      → P (apply_normal io index cmd d).db
  unfolding apply_normal apply_command Handlers.create_stream Handlers.begin_delete_stream
      Handlers.finalize_delete_stream Handlers.set_stream_enabled Handlers.create_viewer
      Handlers.set_api_token token_replace Handlers.release_stream_owner
      Handlers.release_owners_for_node
  apply_normal-Keeps index at (Command.create_stream c) d h =
      Replies.create_reply-Keeps P _
        (st.stream_add (io 0) c.stream c.default_viewer (Handlers.create_token c) d (good 0) h)
  apply_normal-Keeps index at (Command.begin_delete_stream c) d h =
      Replies.disable_reply-Keeps P c.id _
        (st.disable (io 0) c.id c.expected_created_at c.expected_delete_token d h)
  apply_normal-Keeps index at (Command.finalize_delete_stream id) d h =
      Replies.finalize_reply-Keeps P io id _ (st.delete_if_pending (io 0) id d h)
  apply_normal-Keeps index at (Command.set_stream_enabled id b) d h =
      Replies.set_enabled_reply-Keeps P io id _ (st.set_enabled (io 0) id b d h)
  apply_normal-Keeps index at (Command.create_viewer v) d h =
      Replies.viewer_reply-Keeps P _ (st.viewer_added (io 0) v d (good 0) h)
  apply_normal-Keeps index at (Command.delete_viewer s v) d h = st.viewer_deleted io s v d h
  apply_normal-Keeps index at (Command.set_api_token t) d h =
      Replies.setting_reply-Keeps P _ _ (st.setting (io 0) _ t d h)
  apply_normal-Keeps index at (Command.acquire_stream_owner c) d h =
      Replies.acquire_reply-Keeps P _ _
        (rw at (st.acquire (io 0) c.stream_id c.node_id c.acquired_at d h))
  apply_normal-Keeps index at (Command.release_stream_owner s e) d h =
      Replies.release_reply-Keeps P _ (st.release (io 0) s e d h)
  apply_normal-Keeps index at (Command.release_owners_for_node node e) d h =
      Replies.release_reply-Keeps P _ (st.release_node (io 0) node e d h)
  apply_normal-Keeps index at (Command.seed_from_standalone c) d h = seed-Keeps c d h
  apply_normal-Keeps index at (Command.set_cluster_id id) d h =
      Replies.setting_reply-Keeps P _ _ (st.setting (io 0) _ id d h)
