-- ===== src/Cluster/Tests.antt =====
-- src/cluster/raft/state_machine.rs: a log on empty tables, and the theorems at it.
use librtmp2_server.Base.{
  ℕ, ◌+◌, ◌≡◌, refl, arith, true, false, none, some, List, [], ◌∷◌, Text, any_of, keep, text_eqb,
}
use librtmp2_server.Db.Tables
use librtmp2_server.Db.Tables.{Stream, StreamViewer, Database, Fault}
use librtmp2_server.Db.Streams
use librtmp2_server.Db.Owners
use librtmp2_server.Db.Viewers
use librtmp2_server.Cluster.StateMachine.Handlers.{begin_delete_stream}
use librtmp2_server.Cluster.Identity.{SparesOthers, begin_delete_stream-SparesOthers}
use librtmp2_server.Cluster.StateMachine.Apply.{apply_normal}
use librtmp2_server.Cluster.Command
use librtmp2_server.Cluster.Command.{
  ClusterCommand, ClusterResponse, done, owner_epoch, released, error,
}
use librtmp2_server.Cluster.StateMachine.Handlers
use librtmp2_server.Cluster.StateMachine.Seed
use librtmp2_server.Cluster.StateMachine.Apply
use librtmp2_server.Cluster.StateMachine.Apply.{
  Entry, EntryPayload, blank, normal, membership, SqliteStateMachine, apply,
}
use librtmp2_server.Cluster.Keys.Defs.{KeyUnique}
use librtmp2_server.Cluster.Keys.Commands.{apply-KeyUnique}
use librtmp2_server.Cluster.Fencing.Log.{Fenced, apply-Fenced}
use librtmp2_server.Cluster.Progress.{Progress, apply-Progress}

abbrev fine : Fault
fine = record { query = true; key_query = true; statement = true; message = [] }

abbrev no_rows : Database
no_rows = record {
  settings = [];
  streams = [];
  viewers = [];
  owners = [];
  publishers = [];
  players = [];
  active_player_counts = [];
  unpersisted_player_counts = [];
}

abbrev start : SqliteStateMachine ℕ ℕ
start = record {
  db = no_rows;
  meta_last_applied = none;
  meta_last_membership = none;
  last_applied = none;
  last_membership = none;
  effects = [];
}

-- Access keys of 33 bytes, told apart by the last one.
abbrev key : ℕ → Text
key c =
    b'k' ∷ b'k' ∷ b'k' ∷ b'k' ∷ b'k' ∷ b'k' ∷ b'k' ∷ b'k' ∷ b'k' ∷ b'k' ∷ b'k' ∷ b'k' ∷ b'k' ∷ b'k'
    ∷ b'k' ∷ b'k' ∷ b'k' ∷ b'k' ∷ b'k' ∷ b'k' ∷ b'k' ∷ b'k' ∷ b'k' ∷ b'k' ∷ b'k' ∷ b'k' ∷ b'k'
    ∷ b'k' ∷ b'k' ∷ b'k' ∷ b'k' ∷ b'k' ∷ c ∷ []

abbrev stream : Text → ℕ → Stream
stream id c = record {
  id = id;
  name = [];
  app = b'l' ∷ [];
  publish_key = key c;
  play_key = key (c + 1);
  stats_key = key (c + 2);
  enabled = true;
  created_at = 7;
}

abbrev viewer : Text → Text → ℕ → StreamViewer
viewer id stream_id c = record {
  id = id;
  stream_id = stream_id;
  name = [];
  play_key = key c;
  enabled = true;
  created_at = 7;
}

abbrev one : Text
one = b'1' ∷ []

abbrev two : Text
two = b'2' ∷ []

abbrev entry : ℕ → EntryPayload ℕ → Entry ℕ ℕ
entry i p = record { log_id = i; payload = p; calls = λ n. fine; persists = true }

abbrev create : Text → ℕ → ClusterCommand
create id c = Command.create_stream (record {
  stream = stream id c;
  default_viewer = viewer id id (c + 1);
  delete_token = b't' ∷ [];
})

abbrev acquire : Text → ℕ → ClusterCommand
acquire id node =
    Command.acquire_stream_owner
      (record { stream_id = id; node_id = node; epoch = 0; acquired_at = 9 })

abbrev log : List (Entry ℕ ℕ)
log =
    entry 1 (membership 5)
    ∷ entry 2 (normal (create one b'a'))
    ∷ entry 3 (normal (create two b'c'))
    ∷ entry 4 (normal (create two b'd'))
    ∷ entry 5 (normal (acquire one 1))
    ∷ entry 6 (normal (acquire one 2))
    ∷ entry 7 (normal (Command.release_owners_for_node 1 5))
    ∷ entry 8 (normal (acquire one 2))
    ∷ []

-- The second stream shares a key with the first one.
responses :
    (apply (λ n. n) log start).1
    ≡ some (
        done
        ∷ done
        ∷ ClusterResponse.duplicate
        ∷ done
        ∷ owner_epoch 5
        ∷ ClusterResponse.conflict
        ∷ released 7
        ∷ owner_epoch 8
        ∷ [])
unfolding Apply.apply Apply.apply_from Apply.answered Apply.apply_entry Apply.apply_payload
    Apply.command_applied Apply.membership_stored Apply.persisted Apply.persist_applied_tx
    Apply.apply_normal Apply.is_error Apply.release_index Seed.apply_command Handlers.create_stream
    Handlers.create_reply Handlers.create_token Handlers.is_empty Handlers.acquire_reply
    Handlers.release_reply Handlers.release_owners_for_node
    Streams.stream_add_with_viewer_with_token Streams.stream_keys_in_use Streams.stream_conflicts
    Streams.add_stream_row Streams.viewer_conflicts Streams.add_viewer_row
    Tables.key_globally_in_use_locked Tables.is_valid_access_key Tables.is_ascii_alphanumeric
    Tables.is_key_char Tables.starts_alphanumeric Tables.stream_has_key Tables.viewer_has_key
    Tables.find_stream Tables.has_id Owners.stream_owner_acquire Owners.acquire_row
    Owners.find_owner Owners.owns Owners.stream_available Owners.stream_owners_release_for_node
    Owners.releases_node Owners.i64_leb Owners.clamp_epoch any_of keep text_eqb
responses = refl

apply-KeyUnique_example : KeyUnique (apply (λ n. n) log start).0.db
apply-KeyUnique_example =
    apply-KeyUnique (λ n. n) log start
      (
        λ n. refl,
        (
          λ n. refl,
          (λ n. refl, (λ n. refl, (λ n. refl, (λ n. refl, (λ n. refl, (λ n. refl, tt)))))),
        ),
      )
      (record { leads = λ key valid. ([], record { by_stream = tt; by_viewer = tt }) })

apply-Fenced_example : Fenced (λ n. n) 0 8 (apply (λ n. n) log start)
apply-Fenced_example =
    apply-Fenced (λ n. n) 0 log start
      (
        omega arith,
        (
          omega arith,
          (
            omega arith,
            (omega arith, (omega arith, (omega arith, (omega arith, (omega arith, tt))))),
          ),
        ),
      )
      tt

apply-Progress_example : Progress (λ n. n) none log start (apply (λ n. n) log start)
apply-Progress_example = apply-Progress (λ n. n) log start (record { meta = refl; memory = refl })

-- A stream with its own viewer row and a second one.
abbrev two_viewers : Database
two_viewers = record no_rows {
  streams = record { stream = stream one b'a'; pending_delete = false; delete_token = [] } ∷ [];
  viewers = viewer one one b'b' ∷ viewer two one b'x' ∷ [];
}

-- The viewer of the stream's own play key is not deleted, the other one is.
refused :
    (apply_normal (λ n. fine) 9 (Command.delete_viewer one one) two_viewers).response
    ≡ ClusterResponse.conflict
unfolding Apply.apply_normal Seed.apply_command Handlers.delete_viewer Handlers.delete_listed_viewer
    Handlers.would_remove_last Handlers.is_named Handlers.delete_unless_default
    Handlers.is_default_viewer Viewers.viewer_list_checked Tables.stream_get Tables.find_stream
    Tables.has_id any_of keep text_eqb
refused = refl

abbrev after_delete : Database
after_delete = (apply_normal (λ n. fine) 9 (Command.delete_viewer one two) two_viewers).db

-- The stream that has the id now has another token, so the late delete leaves it.
begin_delete_stream-SparesOthers_example :
    SparesOthers two two_viewers
      (begin_delete_stream
        (λ n. fine)
        (record { id = one; expected_created_at = none; expected_delete_token = some two })
        two_viewers).db
begin_delete_stream-SparesOthers_example =
    begin_delete_stream-SparesOthers (λ n. fine)
      (record { id = one; expected_created_at = none; expected_delete_token = some two }) two
      two_viewers refl
