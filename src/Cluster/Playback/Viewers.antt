-- ===== src/Cluster/Playback/Viewers.antt =====
-- src/db.rs: the calls on the tables, and the viewer row of an advertised play key.
use librtmp2_server.Base.{
  ℕ, ◌≡◌, refl, sym, arith, Bool, true, false, not, ◌&&◌, ◌||◌, Option, none, some, List, [], ◌∷◌,
  ◌++◌, Text, text_eq, text_eqb_iff, ◌==◌, any_of, All-append, All-map, All-weaken, All-intro,
  All-keep-passed, subst, keep, map, if-elim, nat_eqb,
}
use librtmp2_server.Db.Tables.{
  Stream, StreamRow, StreamViewer, Database, Fault, StreamOwner, has_id,
}
use librtmp2_server.Db.Streams.{
  setting_set, stream_keys_in_use, stream_conflicts, stream_add_with_viewer_with_token,
  viewer_conflicts, add_stream_row, add_viewer_row, identity_matches, disable_row, enable_row,
  stream_disable_expecting, stream_set_enabled, delete_stream_rows, stream_delete_if_pending,
}
use librtmp2_server.Db.Viewers.{
  viewer_add, viewer_key_taken, is_default_play, parent_available, players_deactivate_for_viewer,
}
use librtmp2_server.Db.Owners.{
  stream_owner_acquire, stream_owner_release, stream_owners_release_for_node, acquire_row,
  find_owner, stream_available,
}
use librtmp2_server.Cluster.Playback.Rows.{
  plays, Advertised, Playable, any_of-append, any_of-spared, keep-UniqueIds, map-UniqueIds,
  append-UniqueIds, others_differ,
}

abbrev pub After : {R : Type 0} → Database × R → Type 0
After r = Playable r.0

-- Tables without streams and viewers do not matter.
pub same_rows-Playable :
    (d d' : Database) → d'.streams ≡ d.streams → d'.viewers ≡ d.viewers → Playable d → Playable d'
same_rows-Playable d d' s v h = record {
  unique = rw s h.unique;
  advertised = rw (s, v) h.advertised;
}

more-Advertised :
    (vs ws : List StreamViewer) (r : StreamRow) → Advertised vs r → Advertised (vs ++ ws) r
more-Advertised vs ws r h = ground (arith, any_of-append (plays r.stream) vs ws)

add_viewer_row-Playable :
    (v : StreamViewer) (d : Database) → Playable d → Playable (add_viewer_row v d)
unfolding add_viewer_row
add_viewer_row-Playable v d h = record {
  unique = h.unique;
  advertised =
      All-weaken (Advertised (d.viewers ++ (v ∷ []))) (Advertised d.viewers) d.streams
        (more-Advertised d.viewers (v ∷ [])) h.advertised;
}

no_conflict-ids :
    (s : Stream) (rs : List StreamRow)
    → any_of (stream_conflicts s) rs ≡ false
    → any_of (has_id s.id) rs ≡ false
unfolding any_of stream_conflicts has_id
no_conflict-ids s [] e = refl
no_conflict-ids s (r ∷ rs) e = ground (arith, no_conflict-ids s rs)

new_default :
    (s : Stream) (v : StreamViewer) (vs : List StreamViewer)
    → (not (v.stream_id == s.id) || not (v.play_key == s.play_key)) ≡ false
    → v.enabled ≡ true
    → any_of (plays s) (vs ++ (v ∷ [])) ≡ true
unfolding plays any_of
new_default s v vs same on = ground (arith, any_of-append (plays s) vs (v ∷ []))

pub stream_add-Playable :
    (f : Fault) (s : Stream) (v : StreamViewer) (token : Text) (d : Database)
    → v.enabled ≡ true
    → Playable d
    → Playable (stream_add_with_viewer_with_token f s v token d).0
unfolding stream_add_with_viewer_with_token
stream_add-Playable f s v token d on h =
    if-elim After (not (v.stream_id == s.id) || not (v.play_key == s.play_key)) (λ e. h)
      (λ same.
        if-elim After (stream_keys_in_use f s d) (λ e. h)
          (λ e.
            if-elim After (not f.statement) (λ e. h)
              (λ e.
                if-elim After (any_of (stream_conflicts s) d.streams) (λ e. h)
                  (λ free.
                    if-elim After (any_of (viewer_conflicts v) d.viewers) (λ e. h)
                      (λ e.
                        unfold add_viewer_row add_stream_row in
                        (record {
                          unique =
                              append-UniqueIds
                                (record {
                                  stream = s;
                                  pending_delete = false;
                                  delete_token = token;
                                })
                                d.streams (no_conflict-ids s d.streams free) h.unique;
                          advertised =
                              All-append (Advertised (d.viewers ++ (v ∷ []))) d.streams
                                (record { stream = s; pending_delete = false; delete_token = token }
                                  ∷ [])
                                (All-weaken (Advertised (d.viewers ++ (v ∷ [])))
                                  (Advertised d.viewers) d.streams
                                  (more-Advertised d.viewers (v ∷ [])) h.advertised)
                                (new_default s v d.viewers same on, tt);
                        }))))))

pub viewer_add-Playable :
    (f : Fault) (v : StreamViewer) (d : Database) → Playable d → Playable (viewer_add f v d).0
unfolding viewer_add
viewer_add-Playable f v d h =
    if-elim After (not f.query) (λ e. h)
      (λ e.
        if-elim After (is_default_play v d && not f.key_query) (λ e. h)
          (λ e.
            if-elim After (viewer_key_taken f v d) (λ e. h)
              (λ e.
                if-elim After (not f.statement) (λ e. h)
                  (λ e.
                    if-elim After (not (parent_available v d)) (λ e. h)
                      (λ e.
                        if-elim After (any_of (viewer_conflicts v) d.viewers) (λ e. h)
                          (λ e. add_viewer_row-Playable v d h))))))

-- Updates that keep the ids and the play keys.
map-Playable :
    (f : StreamRow → StreamRow) (d : Database)
    → ((r : StreamRow)
        → ((f r).stream.id ≡ r.stream.id) × ((f r).stream.play_key ≡ r.stream.play_key))
    → Playable d
    → Playable (record d { streams = map f d.streams })
unfolding plays
map-Playable f d keeps h = record {
  unique = map-UniqueIds f d.streams (λ r. (keeps r).0) h.unique;
  advertised =
      All-map (Advertised d.viewers) f (Advertised d.viewers) d.streams
        (λ r a.
          subst
            (λ k.
              any_of (λ v. v.stream_id == k && (v.play_key == (f r).stream.play_key && v.enabled))
                d.viewers
              ≡ true)
            (sym (keeps r).0)
            (subst
              (λ k.
                any_of (λ v. v.stream_id == r.stream.id && (v.play_key == k && v.enabled)) d.viewers
                ≡ true)
              (sym (keeps r).1) a))
        h.advertised;
}

abbrev SameKeys : StreamRow → StreamRow → Type 0
SameKeys r q = (q.stream.id ≡ r.stream.id) × (q.stream.play_key ≡ r.stream.play_key)

pub disable-Playable :
    (f : Fault) (id : Text) (created : Option ℕ) (token : Option Text) (d : Database)
    → Playable d
    → Playable (stream_disable_expecting f id created token d).0
unfolding stream_disable_expecting disable_row
disable-Playable f id created token d h =
    if-elim After (not f.statement) (λ e. h)
      (λ e.
        if-elim After (any_of (λ r. has_id id r && identity_matches created token r) d.streams)
          (λ e.
            map-Playable (disable_row id created token) d
              (λ r.
                if-elim (SameKeys r) (has_id id r && identity_matches created token r)
                  (λ e. (refl, refl)) (λ e. (refl, refl)))
              h)
          (λ e.
            if-elim After (not f.query) (λ e. h)
              (λ e. if-elim After (any_of (has_id id) d.streams) (λ e. h) (λ e. h))))

pub set_enabled-Playable :
    (f : Fault) (id : Text) (enabled : Bool) (d : Database)
    → Playable d
    → Playable (stream_set_enabled f id enabled d).0
unfolding stream_set_enabled enable_row
set_enabled-Playable f id enabled d h =
    if-elim After f.statement
      (λ e.
        map-Playable (enable_row id enabled) d
          (λ r. if-elim (SameKeys r) (has_id id r) (λ e. (refl, refl)) (λ e. (refl, refl))) h)
      (λ e. h)

-- A viewer of another stream stays.
spared-Advertised :
    (id : Text) (vs : List StreamViewer) (r : StreamRow)
    → has_id id r ≡ false
    → Advertised vs r
    → Advertised (keep (λ (v : StreamViewer). not (v.stream_id == id)) vs) r
unfolding has_id plays
spared-Advertised id vs r other h =
    any_of-spared (plays r.stream) (λ (v : StreamViewer). not (v.stream_id == id)) vs
      (All-intro (λ v. plays r.stream v ≡ true → not (v.stream_id == id) ≡ true)
        (λ v p. ground (
          arith,
          text_eqb_iff v.stream_id r.stream.id,
          text_eqb_iff v.stream_id id,
          text_eqb_iff r.stream.id id,
        ))
        vs)
      h

pub delete-Playable :
    (f : Fault) (id : Text) (d : Database)
    → Playable d
    → Playable (stream_delete_if_pending f id d).0
unfolding stream_delete_if_pending delete_stream_rows
delete-Playable f id d h =
    if-elim After (not f.statement) (λ e. h)
      (λ e.
        if-elim After (any_of (λ (r : StreamRow). has_id id r && r.pending_delete) d.streams)
          (λ hit. record {
            unique =
                keep-UniqueIds (λ (r : StreamRow). not (has_id id r && r.pending_delete)) d.streams
                  h.unique;
            advertised =
                All-keep-passed
                  (Advertised (keep (λ (v : StreamViewer). not (v.stream_id == id)) d.viewers))
                  (Advertised d.viewers) (λ r. has_id id r ≡ false)
                  (λ (r : StreamRow). not (has_id id r && r.pending_delete)) d.streams
                  (λ r a other. spared-Advertised id d.viewers r other a) h.advertised
                  (others_differ id (λ (r : StreamRow). r.pending_delete) d.streams h.unique hit);
          })
          (λ e. h))

pub revoke-Playable :
    (f : Fault) (v : Text) (d : Database)
    → Playable d
    → Playable (players_deactivate_for_viewer f v d)
unfolding players_deactivate_for_viewer
revoke-Playable f v d h =
    if-elim Playable f.statement (λ e. same_rows-Playable d _ refl refl h) (λ e. h)

pub setting-Playable :
    (f : Fault) (key val : Text) (d : Database) → Playable d → Playable (setting_set f key val d).0
unfolding setting_set
setting-Playable f key val d h =
    if-elim After f.statement (λ e. same_rows-Playable d _ refl refl h) (λ e. h)

acquire_row-Playable :
    (id : Text) (node epoch at : ℕ) (d : Database) (o : Option StreamOwner)
    → Playable d
    → Playable (acquire_row id node epoch at d o).0
unfolding acquire_row
acquire_row-Playable id node epoch at d none h = same_rows-Playable d _ refl refl h
acquire_row-Playable id node epoch at d (some o) h =
    if-elim After (nat_eqb o.owner_node_id node) (λ e. same_rows-Playable d _ refl refl h) (λ e. h)

pub acquire-Playable :
    (f : Fault) (id : Text) (node epoch at : ℕ) (d : Database)
    → Playable d
    → Playable (stream_owner_acquire f id node epoch at d).0
unfolding stream_owner_acquire
acquire-Playable f id node epoch at d h =
    if-elim After (not f.query) (λ e. h)
      (λ e.
        if-elim After (not (stream_available id d)) (λ e. h)
          (λ e.
            if-elim After (not f.statement) (λ e. h)
              (λ e. acquire_row-Playable id node epoch at d (find_owner id d.owners) h)))

pub release-Playable :
    (f : Fault) (id : Text) (epoch : ℕ) (d : Database)
    → Playable d
    → Playable (stream_owner_release f id epoch d).0
unfolding stream_owner_release
release-Playable f id epoch d h =
    if-elim After f.statement (λ e. same_rows-Playable d _ refl refl h) (λ e. h)

pub release_node-Playable :
    (f : Fault) (node max_epoch : ℕ) (d : Database)
    → Playable d
    → Playable (stream_owners_release_for_node f node max_epoch d).0
unfolding stream_owners_release_for_node
release_node-Playable f node max_epoch d h =
    if-elim After f.statement (λ e. same_rows-Playable d _ refl refl h) (λ e. h)
