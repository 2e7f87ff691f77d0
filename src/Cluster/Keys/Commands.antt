-- ===== src/Cluster/Keys/Commands.antt =====
-- src/cluster/raft/state_machine.rs: the log keeps every valid access key with one stream.
use librtmp2_server.Base.{
  ℕ, max, ◌≡◌, refl, true, not, Option, none, some, List, Text, All, All-weaken, nat_eqb, if-elim,
}
use librtmp2_server.Db.Tables.{Database, Fault, StreamOwner}
use librtmp2_server.Db.Streams.{setting_set}
use librtmp2_server.Db.Viewers.{players_deactivate_for_viewer}
use librtmp2_server.Db.Owners.{
  stream_owner_acquire, stream_owner_release, stream_owners_release_for_node, acquire_row,
  find_owner, stream_available,
}
use librtmp2_server.Cluster.StateMachine.Replies
use librtmp2_server.Cluster.StateMachine.Stable.{Stable, apply_normal-Keeps}
use librtmp2_server.Cluster.StateMachine.Apply.{Entry, SqliteStateMachine, apply}
use librtmp2_server.Cluster.StateMachine.Batch.{apply-Keeps, EntryKeeps}
use librtmp2_server.Cluster.Keys.Defs.{KeyUnique}
use librtmp2_server.Cluster.Keys.Tables
use librtmp2_server.Cluster.Keys.Tables.{After}
use librtmp2_server.Cluster.Keys.Changes
use librtmp2_server.Cluster.Keys.Changes.{same_rows-KeyUnique}

revocation-KeyUnique :
    (fault : Fault) (viewer_id : Text) (d : Database)
    → KeyUnique d
    → KeyUnique (players_deactivate_for_viewer fault viewer_id d)
unfolding players_deactivate_for_viewer
revocation-KeyUnique fault viewer_id d h =
    if-elim KeyUnique fault.statement (λ e. same_rows-KeyUnique d _ refl refl h) (λ e. h)

setting_set-KeyUnique :
    (fault : Fault) (key val : Text) (d : Database)
    → KeyUnique d
    → KeyUnique (setting_set fault key val d).0
unfolding setting_set
setting_set-KeyUnique fault key val d h =
    if-elim After fault.statement (λ e. same_rows-KeyUnique d _ refl refl h) (λ e. h)

acquire_row-KeyUnique :
    (id : Text) (node epoch at : ℕ) (d : Database) (o : Option StreamOwner)
    → KeyUnique d
    → KeyUnique (acquire_row id node epoch at d o).0
unfolding acquire_row
acquire_row-KeyUnique id node epoch at d none h = same_rows-KeyUnique d _ refl refl h
acquire_row-KeyUnique id node epoch at d (some o) h =
    if-elim After (nat_eqb o.owner_node_id node) (λ e. same_rows-KeyUnique d _ refl refl h) (λ e. h)

acquire-KeyUnique :
    (fault : Fault) (id : Text) (node epoch at : ℕ) (d : Database)
    → KeyUnique d
    → KeyUnique (stream_owner_acquire fault id node epoch at d).0
unfolding stream_owner_acquire
acquire-KeyUnique fault id node epoch at d h =
    if-elim After (not fault.query) (λ e. h)
      (λ e.
        if-elim After (not (stream_available id d)) (λ e. h)
          (λ e.
            if-elim After (not fault.statement) (λ e. h)
              (λ e. acquire_row-KeyUnique id node epoch at d (find_owner id d.owners) h)))

release-KeyUnique :
    (fault : Fault) (id : Text) (epoch : ℕ) (d : Database)
    → KeyUnique d
    → KeyUnique (stream_owner_release fault id epoch d).0
unfolding stream_owner_release
release-KeyUnique fault id epoch d h =
    if-elim After fault.statement (λ e. same_rows-KeyUnique d _ refl refl h) (λ e. h)

release_node-KeyUnique :
    (fault : Fault) (node max_epoch : ℕ) (d : Database)
    → KeyUnique d
    → KeyUnique (stream_owners_release_for_node fault node max_epoch d).0
unfolding stream_owners_release_for_node
release_node-KeyUnique fault node max_epoch d h =
    if-elim After fault.statement (λ e. same_rows-KeyUnique d _ refl refl h) (λ e. h)

abbrev pub Answers : Fault → Type 0
Answers f = f.key_query ≡ true

pub KeyUnique-Stable : (epoch : ℕ) → Stable KeyUnique Answers epoch
KeyUnique-Stable epoch = record {
  stream_add = Tables.stream_add_with_viewer-KeyUnique;
  insert_only = Tables.stream_insert_only-KeyUnique;
  disable = Changes.stream_disable_expecting-KeyUnique;
  set_enabled = Changes.stream_set_enabled-KeyUnique;
  delete_if_pending = Changes.stream_delete_if_pending-KeyUnique;
  viewer_added = Tables.viewer_add-KeyUnique;
  viewer_deleted =
      Replies.delete_viewer-Keeps KeyUnique revocation-KeyUnique Changes.viewer_delete-KeyUnique;
  setting = setting_set-KeyUnique;
  acquire = λ f id node at d h. acquire-KeyUnique f id node epoch at d h;
  release = release-KeyUnique;
  release_node = release_node-KeyUnique;
}

-- The database answers the key checks of an entry.
abbrev pub EntryAnswers : {L M : Type 0} → Entry L M → Type 0
EntryAnswers e = (n : ℕ) → Answers (e.calls n)

-- If every valid access key leads to at most one stream, then it does so after any batch of log
-- entries in which no key check fails: whatever the commands are, in whatever order, whichever of
-- them are refused, whichever writes fail, and wherever the batch is cut short by an error.
pub apply-KeyUnique :
    {L M : Type 0} (index : L → ℕ) (es : List (Entry L M)) (sm : SqliteStateMachine L M)
    → All EntryAnswers es
    → KeyUnique sm.db
    → KeyUnique (apply index es sm).0.db
apply-KeyUnique index es sm answers h =
    apply-Keeps index KeyUnique es sm
      (All-weaken (EntryKeeps index KeyUnique) EntryAnswers es
        (λ e good.
          apply_normal-Keeps (KeyUnique-Stable (max (index e.log_id) 1)) e.calls good
            (index e.log_id) refl)
        answers)
      h
