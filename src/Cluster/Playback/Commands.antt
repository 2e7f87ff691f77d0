-- ===== src/Cluster/Playback/Commands.antt =====
-- src/cluster/raft/state_machine.rs: the play key that a stream advertises stays playable.
use librtmp2_server.Base.{
  ◌≡◌, Bool, true, false, not, none, some, List, Text, text_eq, ◌==◌, All, keep,
}
use librtmp2_server.Db.Tables.{
  Stream, StreamRow, StreamViewer, Database, DbLookup, found, absent, failed, find_stream,
}
use librtmp2_server.Db.Viewers.{is_viewer}
use librtmp2_server.Cluster.Command
use librtmp2_server.Cluster.Command.{ClusterCommand}
use librtmp2_server.Cluster.StateMachine.Handlers
use librtmp2_server.Cluster.StateMachine.Replies
use librtmp2_server.Cluster.Playback.Rows.{plays}
use librtmp2_server.Cluster.Playback.Viewers

-- The viewer of every row survives the deletion of a viewer.
abbrev Spares : Text → Text → List StreamViewer → StreamRow → Type 0
Spares s v vs r = All (λ w. plays r.stream w ≡ true → not (is_viewer s v w) ≡ true) vs

-- The answer of `stream_get` is the first row with the id.
abbrev LookedUp : Text → Database → DbLookup Stream → Type 0
LookedUp s d (found x) = (r : StreamRow) × (find_stream s d.streams ≡ some r) × (r.stream ≡ x)
LookedUp s d absent = find_stream s d.streams ≡ none
LookedUp s d failed = Unit

-- The viewers that the fence looks at.
abbrev listed : Text → Database → List StreamViewer
listed s d = keep (λ (w : StreamViewer). w.stream_id == s) d.viewers

-- The command is no seed, and a new stream comes with an enabled viewer.
unfoldable pub keeps_default : ClusterCommand → Bool
keeps_default (Command.create_stream c) = c.default_viewer.enabled
keeps_default (Command.begin_delete_stream c) = true
keeps_default (Command.finalize_delete_stream id) = true
keeps_default (Command.set_stream_enabled id b) = true
keeps_default (Command.create_viewer v) = true
keeps_default (Command.delete_viewer s v) = true
keeps_default (Command.set_api_token t) = true
keeps_default (Command.acquire_stream_owner c) = true
keeps_default (Command.release_stream_owner s e) = true
keeps_default (Command.release_owners_for_node n e) = true
keeps_default (Command.seed_from_standalone c) = false
keeps_default (Command.set_cluster_id id) = true
