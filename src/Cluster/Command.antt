-- ===== src/Cluster/Command.antt =====
-- src/cluster/command.rs: the commands of the Raft log, and what applying one answers.
use librtmp2_server.Base.{ℕ, Bool, Option, List, [], ◌∷◌, Text, Map}
use librtmp2_server.Db.Tables.{Stream, StreamViewer, Result, ok, err}

pub record CreateStream : Type 0 where
  pub stream : Stream
  pub default_viewer : StreamViewer
  pub delete_token : Text

pub record BeginDeleteStream : Type 0 where
  pub id : Text
  pub expected_created_at : Option ℕ
  pub expected_delete_token : Option Text

pub record AcquireStreamOwner : Type 0 where
  pub stream_id : Text
  pub node_id : ℕ
  pub epoch : ℕ
  pub acquired_at : ℕ

pub record SeedFromStandalone : Type 0 where
  pub streams : List Stream
  pub viewers : List StreamViewer
  pub delete_tokens : Map Text Text
  pub api_token : Option Text
  pub pending_delete_stream_ids : List Text

pub data ClusterCommand : Type 0 where
  create_stream : CreateStream → ClusterCommand
  begin_delete_stream : BeginDeleteStream → ClusterCommand
  finalize_delete_stream : (id : Text) → ClusterCommand
  set_stream_enabled : (id : Text) → (enabled : Bool) → ClusterCommand
  create_viewer : (viewer : StreamViewer) → ClusterCommand
  delete_viewer : (stream_id viewer_id : Text) → ClusterCommand
  set_api_token : (token : Text) → ClusterCommand
  acquire_stream_owner : AcquireStreamOwner → ClusterCommand
  release_stream_owner : (stream_id : Text) → (epoch : ℕ) → ClusterCommand
  release_owners_for_node : (node_id max_epoch : ℕ) → ClusterCommand
  seed_from_standalone : SeedFromStandalone → ClusterCommand
  set_cluster_id : (id : Text) → ClusterCommand

pub data ClusterResponse : Type 0 where
  done duplicate not_found conflict : ClusterResponse
  owner_epoch released : ℕ → ClusterResponse
  error : Text → ClusterResponse

-- src/state.rs.
pub data CoordError : Type 0 where
  duplicate not_found conflict db : CoordError
  cluster : Text → CoordError

unfoldable pub into_coord_result : ClusterResponse → Result (Unit {0}) CoordError
into_coord_result done = ok tt
into_coord_result (owner_epoch e) = ok tt
into_coord_result (released e) = ok tt
into_coord_result ClusterResponse.duplicate = err CoordError.duplicate
into_coord_result ClusterResponse.not_found = err CoordError.not_found
into_coord_result ClusterResponse.conflict = err CoordError.conflict
into_coord_result (error msg) = err (cluster msg)

abbrev pub missing_owner_epoch : Text
missing_owner_epoch =
    b'm' ∷ b'i' ∷ b's' ∷ b's' ∷ b'i' ∷ b'n' ∷ b'g' ∷ b' ' ∷ b'o' ∷ b'w' ∷ b'n' ∷ b'e' ∷ b'r' ∷ b' '
    ∷ b'e' ∷ b'p' ∷ b'o' ∷ b'c' ∷ b'h' ∷ []

-- `result.map(|()| 0)`.
unfoldable pub zero_epoch : Result (Unit {0}) CoordError → Result ℕ CoordError
zero_epoch (ok u) = ok 0
zero_epoch (err e) = err e

unfoldable pub into_owner_epoch : ClusterResponse → Result ℕ CoordError
into_owner_epoch (owner_epoch e) = ok e
into_owner_epoch done = err (cluster missing_owner_epoch)
into_owner_epoch ClusterResponse.duplicate =
    zero_epoch (into_coord_result ClusterResponse.duplicate)
into_owner_epoch ClusterResponse.not_found =
    zero_epoch (into_coord_result ClusterResponse.not_found)
into_owner_epoch ClusterResponse.conflict = zero_epoch (into_coord_result ClusterResponse.conflict)
into_owner_epoch (released i) = zero_epoch (into_coord_result (released i))
into_owner_epoch (error msg) = zero_epoch (into_coord_result (error msg))
