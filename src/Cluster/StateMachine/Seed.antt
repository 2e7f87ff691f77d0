-- ===== src/Cluster/StateMachine/Seed.antt =====
-- src/cluster/raft/state_machine.rs, `apply_command`: the seed of a cluster from a standalone
-- database, and the dispatch of a command to its handler.
use librtmp2_server.Base.{
  ℕ, suc, ◌+◌, Bool, true, false, Option, none, some, List, [], ◌∷◌, ◌++◌, Text, Map, lookup,
  length, map_or, text_eq,
}
use librtmp2_server.Db.Tables.{
  Stream, StreamViewer, Database, Result, ok, err, StreamAddError, ViewerAddError,
  legacy_delete_token,
}
use librtmp2_server.Db.Streams.{
  stream_insert_only_with_token, stream_disable, token_replace, setting_set, cluster_id_key,
}
use librtmp2_server.Db.Viewers.{viewer_add}
use librtmp2_server.Db.Owners.{stream_owner_acquire}
use librtmp2_server.Cluster.Command
use librtmp2_server.Cluster.Command.{
  SeedFromStandalone, ClusterCommand, ClusterResponse, done, error,
}
use librtmp2_server.Cluster.StateMachine.Handlers.{
  Io, Reply, StateEffect, drain_stream, api_token, quiet, create_stream, begin_delete_stream,
  finalize_delete_stream, set_stream_enabled, create_viewer, delete_viewer, set_api_token,
  acquire_reply, release_stream_owner, release_owners_for_node, setting_reply,
}

abbrev seed_failed : Text
seed_failed =
    b' ' ∷ b'f' ∷ b'a' ∷ b'i' ∷ b'l' ∷ b'e' ∷ b'd' ∷ b' ' ∷ b'd' ∷ b'u' ∷ b'r' ∷ b'i' ∷ b'n' ∷ b'g'
    ∷ b' ' ∷ b'S' ∷ b'e' ∷ b'e' ∷ b'd' ∷ b'F' ∷ b'r' ∷ b'o' ∷ b'm' ∷ b'S' ∷ b't' ∷ b'a' ∷ b'n'
    ∷ b'd' ∷ b'a' ∷ b'l' ∷ b'o' ∷ b'n' ∷ b'e' ∷ []

abbrev pub stream_insert_failed : Text
stream_insert_failed =
    b's' ∷ b't' ∷ b'r' ∷ b'e' ∷ b'a' ∷ b'm' ∷ b'_' ∷ b'i' ∷ b'n' ∷ b's' ∷ b'e' ∷ b'r' ∷ b't' ∷ b'_'
    ∷ b'o' ∷ b'n' ∷ b'l' ∷ b'y' ∷ seed_failed

abbrev pub viewer_add_failed : Text
viewer_add_failed =
    b'v' ∷ b'i' ∷ b'e' ∷ b'w' ∷ b'e' ∷ b'r' ∷ b'_' ∷ b'a' ∷ b'd' ∷ b'd' ∷ seed_failed

abbrev pub stream_disable_failed : Text
stream_disable_failed =
    b's' ∷ b't' ∷ b'r' ∷ b'e' ∷ b'a' ∷ b'm' ∷ b'_' ∷ b'd' ∷ b'i' ∷ b's' ∷ b'a' ∷ b'b' ∷ b'l' ∷ b'e'
    ∷ seed_failed

-- A stage of the seed leaves the tables, and whether the next stage may run.
unfoldable pub stream_seeded : Database × Result (Unit {0}) StreamAddError → Database × Bool
stream_seeded (d, ok u) = (d, true)
stream_seeded (d, err StreamAddError.duplicate) = (d, true)
stream_seeded (d, err StreamAddError.db) = (d, false)

unfoldable pub seed_token : Map Text Text → Stream → Text
seed_token tokens s = map_or (lookup s.id tokens) (legacy_delete_token s.id s.publish_key) (λ t. t)

unfoldable pub seed_streams :
    Io → ℕ → Map Text Text → List Stream → Database × Bool → Database × Bool
seed_streams io n tokens [] d = d
seed_streams io n tokens (s ∷ ss) (d, false) = (d, false)
seed_streams io n tokens (s ∷ ss) (d, true) =
    seed_streams io (suc n) tokens ss
      (stream_seeded (stream_insert_only_with_token (io n) s (seed_token tokens s) d))

unfoldable pub viewer_seeded : Database × Result (Unit {0}) ViewerAddError → Database × Bool
viewer_seeded (d, ok u) = (d, true)
viewer_seeded (d, err ViewerAddError.duplicate) = (d, true)
viewer_seeded (d, err ViewerAddError.parent_unavailable) = (d, false)
viewer_seeded (d, err ViewerAddError.db) = (d, false)

unfoldable pub seed_viewers : Io → ℕ → List StreamViewer → Database × Bool → Database × Bool
seed_viewers io n [] d = d
seed_viewers io n (v ∷ vs) (d, false) = (d, false)
seed_viewers io n (v ∷ vs) (d, true) =
    seed_viewers io (suc n) vs (viewer_seeded (viewer_add (io n) v d))

-- The streams that were left mid-delete, with the effects emitted so far.
unfoldable pub pending_seeded : Text → List StateEffect → Database × Option Bool → Reply × Bool
pending_seeded id sent (d, some changed) =
    (record { db = d; effects = sent ++ (drain_stream id ∷ []); response = done }, true)
pending_seeded id sent (d, none) =
    (record { db = d; effects = sent; response = error stream_disable_failed }, false)

unfoldable pub seed_pending : Io → ℕ → List Text → Reply × Bool → Reply
seed_pending io n [] (r, b) = r
seed_pending io n (id ∷ ids) (r, false) = r
seed_pending io n (id ∷ ids) (r, true) =
    seed_pending io (suc n) ids (pending_seeded id r.effects (stream_disable (io n) id r.db))

-- What the seed has done when it comes to those streams.
abbrev pub so_far : List StateEffect → Database → Reply × Bool
so_far sent d = (record { db = d; effects = sent; response = done }, true)

unfoldable pub seed_token_on :
    Io → ℕ → SeedFromStandalone → Text → Database × Result (Unit {0}) Text → Reply
seed_token_on io n c token (d, ok u) =
    seed_pending io n c.pending_delete_stream_ids (so_far (api_token token ∷ []) d)
seed_token_on io n c token (d, err e) = quiet d (error e)

unfoldable pub seed_settings : Io → ℕ → SeedFromStandalone → Option Text → Database → Reply
seed_settings io n c none d = seed_pending io n c.pending_delete_stream_ids (so_far [] d)
seed_settings io n c (some token) d =
    seed_token_on io (suc n) c token (token_replace (io n) token d)

unfoldable pub seed_after_viewers : Io → SeedFromStandalone → Database × Bool → Reply
seed_after_viewers io c (d, true) =
    seed_settings io (length c.streams + length c.viewers) c c.api_token d
seed_after_viewers io c (d, false) = quiet d (error viewer_add_failed)

unfoldable pub seed_after_streams : Io → SeedFromStandalone → Database × Bool → Reply
seed_after_streams io c (d, true) =
    seed_after_viewers io c (seed_viewers io (length c.streams) c.viewers (d, true))
seed_after_streams io c (d, false) = quiet d (error stream_insert_failed)

unfoldable pub seed_from_standalone : Io → SeedFromStandalone → Database → Reply
seed_from_standalone io c d =
    seed_after_streams io c (seed_streams io 0 c.delete_tokens c.streams (d, true))

unfoldable pub apply_command : Io → ClusterCommand → Database → Reply
apply_command io (Command.create_stream c) d = create_stream io c d
apply_command io (Command.begin_delete_stream c) d = begin_delete_stream io c d
apply_command io (Command.finalize_delete_stream id) d = finalize_delete_stream io id d
apply_command io (Command.set_stream_enabled id enabled) d = set_stream_enabled io id enabled d
apply_command io (Command.create_viewer v) d = create_viewer io v d
apply_command io (Command.delete_viewer stream_id viewer_id) d =
    delete_viewer io stream_id viewer_id d
apply_command io (Command.set_api_token token) d = set_api_token io token d
apply_command io (Command.acquire_stream_owner c) d =
    acquire_reply [] (stream_owner_acquire (io 0) c.stream_id c.node_id c.epoch c.acquired_at d)
apply_command io (Command.release_stream_owner stream_id epoch) d =
    release_stream_owner io stream_id epoch d
apply_command io (Command.release_owners_for_node node max_epoch) d =
    release_owners_for_node io node max_epoch d
apply_command io (Command.seed_from_standalone c) d = seed_from_standalone io c d
apply_command io (Command.set_cluster_id id) d =
    setting_reply [] (setting_set (io 0) cluster_id_key id d)
