-- ===== src/Cluster/Fencing/Bounds.antt =====
-- src/db.rs: every call leaves the epochs of the owner rows below a bound.
use librtmp2_server.Base.{
  ℕ, ◌≤◌, arith, Bool, not, ◌&&◌, ◌||◌, Option, none, some, [], ◌∷◌, Text, text_eq, ◌==◌, All,
  All-append, All-keep, All-map, any_of, nat_eqb, if-elim,
}
use librtmp2_server.Db.Tables.{
  Stream, StreamRow, StreamViewer, Database, Fault, StreamOwner, has_id,
}
use librtmp2_server.Db.Streams.{
  setting_set, stream_keys_in_use, stream_conflicts, stream_insert_only_with_token,
  stream_add_with_viewer_with_token, viewer_conflicts, add_stream_row, add_viewer_row,
  identity_matches, stream_disable_expecting, stream_set_enabled, delete_stream_rows,
  stream_delete_if_pending,
}
use librtmp2_server.Db.Viewers.{
  viewer_add, viewer_key_taken, is_default_play, parent_available, viewer_delete,
  players_deactivate_for_viewer,
}
use librtmp2_server.Db.Owners.{
  stream_owner_acquire, stream_owner_release, stream_owners_release_for_node, acquire_row,
  find_owner, stream_available, renew, owns, releases, releases_node,
}
use librtmp2_server.Cluster.StateMachine.Replies
use librtmp2_server.Cluster.StateMachine.Stable.{Stable}

abbrev pub Below : ℕ → StreamOwner → Type 0
Below n o = o.epoch ≤ n

-- No owner row has an epoch above `n`.
abbrev pub OwnersBelow : ℕ → Database → Type 0
OwnersBelow n d = All (Below n) d.owners

module _ (n : ℕ) where
  abbrev After : {R : Type 0} → Database × R → Type 0
  After r = OwnersBelow n r.0

  insert_only-Below :
      (f : Fault) (s : Stream) (token : Text) (d : Database)
      → Unit {0}
      → OwnersBelow n d
      → OwnersBelow n (stream_insert_only_with_token f s token d).0
  unfolding stream_insert_only_with_token add_stream_row
  insert_only-Below f s token d g h =
      if-elim After (stream_keys_in_use f s d) (λ e. h)
        (λ e.
          if-elim After (not f.statement) (λ e. h)
            (λ e. if-elim After (any_of (stream_conflicts s) d.streams) (λ e. h) (λ e. h)))

  stream_add-Below :
      (f : Fault) (s : Stream) (v : StreamViewer) (token : Text) (d : Database)
      → Unit {0}
      → OwnersBelow n d
      → OwnersBelow n (stream_add_with_viewer_with_token f s v token d).0
  unfolding stream_add_with_viewer_with_token add_stream_row add_viewer_row
  stream_add-Below f s v token d g h =
      if-elim After (not (v.stream_id == s.id) || not (v.play_key == s.play_key)) (λ e. h)
        (λ e.
          if-elim After (stream_keys_in_use f s d) (λ e. h)
            (λ e.
              if-elim After (not f.statement) (λ e. h)
                (λ e.
                  if-elim After (any_of (stream_conflicts s) d.streams) (λ e. h)
                    (λ e.
                      if-elim After (any_of (viewer_conflicts v) d.viewers) (λ e. h) (λ e. h)))))

  disable-Below :
      (f : Fault) (id : Text) (created : Option ℕ) (token : Option Text) (d : Database)
      → OwnersBelow n d
      → OwnersBelow n (stream_disable_expecting f id created token d).0
  unfolding stream_disable_expecting
  disable-Below f id created token d h =
      if-elim After (not f.statement) (λ e. h)
        (λ e.
          if-elim After (any_of (λ r. has_id id r && identity_matches created token r) d.streams)
            (λ e. h)
            (λ e.
              if-elim After (not f.query) (λ e. h)
                (λ e. if-elim After (any_of (has_id id) d.streams) (λ e. h) (λ e. h))))

  set_enabled-Below :
      (f : Fault) (id : Text) (enabled : Bool) (d : Database)
      → OwnersBelow n d
      → OwnersBelow n (stream_set_enabled f id enabled d).0
  unfolding stream_set_enabled
  set_enabled-Below f id enabled d h = if-elim After f.statement (λ e. h) (λ e. h)

  delete-Below :
      (f : Fault) (id : Text) (d : Database)
      → OwnersBelow n d
      → OwnersBelow n (stream_delete_if_pending f id d).0
  unfolding stream_delete_if_pending delete_stream_rows
  delete-Below f id d h =
      if-elim After (not f.statement) (λ e. h)
        (λ e.
          if-elim After (any_of (λ (r : StreamRow). has_id id r && r.pending_delete) d.streams)
            (λ e. All-keep (Below n) (λ (o : StreamOwner). not (o.stream_id == id)) d.owners h)
            (λ e. h))

  viewer_add-Below :
      (f : Fault) (v : StreamViewer) (d : Database)
      → OwnersBelow n d
      → OwnersBelow n (viewer_add f v d).0
  unfolding viewer_add add_viewer_row
  viewer_add-Below f v d h =
      if-elim After (not f.query) (λ e. h)
        (λ e.
          if-elim After (is_default_play v d && not f.key_query) (λ e. h)
            (λ e.
              if-elim After (viewer_key_taken f v d) (λ e. h)
                (λ e.
                  if-elim After (not f.statement) (λ e. h)
                    (λ e.
                      if-elim After (not (parent_available v d)) (λ e. h)
                        (λ e.
                          if-elim After (any_of (viewer_conflicts v) d.viewers) (λ e. h)
                            (λ e. h))))))

  viewer_delete-Below :
      (f : Fault) (s v : Text) (d : Database)
      → OwnersBelow n d
      → OwnersBelow n (viewer_delete f s v d).0
  unfolding viewer_delete
  viewer_delete-Below f s v d h = if-elim After f.statement (λ e. h) (λ e. h)

  revoke-Below :
      (f : Fault) (v : Text) (d : Database)
      → OwnersBelow n d
      → OwnersBelow n (players_deactivate_for_viewer f v d)
  unfolding players_deactivate_for_viewer
  revoke-Below f v d h = if-elim (OwnersBelow n) f.statement (λ e. h) (λ e. h)

  setting-Below :
      (f : Fault) (key val : Text) (d : Database)
      → OwnersBelow n d
      → OwnersBelow n (setting_set f key val d).0
  unfolding setting_set
  setting-Below f key val d h = if-elim After f.statement (λ e. h) (λ e. h)

  renew-Below : (id : Text) (at : ℕ) (o : StreamOwner) → Below n o → Below n (renew id n at o)
  unfolding renew
  renew-Below id at o h = if-elim (Below n) (owns id o) (λ e. omega arith) (λ e. h)

  acquire_row-Below :
      (id : Text) (node at : ℕ) (d : Database) (o : Option StreamOwner)
      → OwnersBelow n d
      → OwnersBelow n (acquire_row id node n at d o).0
  unfolding acquire_row
  acquire_row-Below id node at d none h =
      All-append (Below n) d.owners
        (record { stream_id = id; owner_node_id = node; epoch = n; acquired_at = at } ∷ []) h
        (omega arith, tt)
  acquire_row-Below id node at d (some o) h =
      if-elim After (nat_eqb o.owner_node_id node)
        (λ e. All-map (Below n) (renew id n at) (Below n) d.owners (renew-Below id at) h) (λ e. h)

  acquire-Below :
      (f : Fault) (id : Text) (node at : ℕ) (d : Database)
      → OwnersBelow n d
      → OwnersBelow n (stream_owner_acquire f id node n at d).0
  unfolding stream_owner_acquire
  acquire-Below f id node at d h =
      if-elim After (not f.query) (λ e. h)
        (λ e.
          if-elim After (not (stream_available id d)) (λ e. h)
            (λ e.
              if-elim After (not f.statement) (λ e. h)
                (λ e. acquire_row-Below id node at d (find_owner id d.owners) h)))

  release-Below :
      (f : Fault) (id : Text) (epoch : ℕ) (d : Database)
      → OwnersBelow n d
      → OwnersBelow n (stream_owner_release f id epoch d).0
  unfolding stream_owner_release
  release-Below f id epoch d h =
      if-elim After f.statement
        (λ e. All-keep (Below n) (λ o. not (releases id epoch o)) d.owners h) (λ e. h)

  release_node-Below :
      (f : Fault) (node max_epoch : ℕ) (d : Database)
      → OwnersBelow n d
      → OwnersBelow n (stream_owners_release_for_node f node max_epoch d).0
  unfolding stream_owners_release_for_node
  release_node-Below f node max_epoch d h =
      if-elim After f.statement
        (λ e. All-keep (Below n) (λ o. not (releases_node node max_epoch o)) d.owners h) (λ e. h)

  pub OwnersBelow-Stable : Stable (OwnersBelow n) (λ f. Unit {0}) n
  OwnersBelow-Stable = record {
    stream_add = stream_add-Below;
    insert_only = insert_only-Below;
    disable = disable-Below;
    set_enabled = set_enabled-Below;
    delete_if_pending = delete-Below;
    viewer_added = λ f v d good h. viewer_add-Below f v d h;
    viewer_deleted = Replies.delete_viewer-Keeps (OwnersBelow n) revoke-Below viewer_delete-Below;
    setting = setting-Below;
    acquire = acquire-Below;
    release = release-Below;
    release_node = release_node-Below;
  }
