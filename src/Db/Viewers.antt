-- ===== src/Db/Viewers.antt =====
-- src/db.rs: the calls on `stream_viewers`, and the revocation of a viewer's sessions.
use librtmp2_server.Base.{
  ℕ, Bool, false, not, ◌&&◌, Option, none, some, List, [], ◌∷◌, Text, Map, lookup, insert, remove,
  any_of, keep, map, map_or, if◌then◌else◌, nat_eqb, text_eq, ◌==◌,
}
use librtmp2_server.Db.Tables.{
  Stream, StreamRow, StreamViewer, Session, Database, Fault, DbLookup, found, absent, failed,
  is_valid_access_key, ViewerAddError, Result, ok, err, find_stream, viewer_has_key,
  key_globally_in_use_locked,
}
use librtmp2_server.Db.Streams.{viewer_conflicts, add_viewer_row}

-- Is this the stream's own play key?
unfoldable pub is_default_play : StreamViewer → Database → Bool
is_default_play v d =
    map_or (find_stream v.stream_id d.streams) false (λ r. r.stream.play_key == v.play_key)

-- The key check in front of the insert.
unfoldable pub viewer_key_taken : Fault → StreamViewer → Database → Bool
viewer_key_taken fault v d =
    if is_default_play v d
    then any_of (viewer_has_key v.play_key) d.viewers
    else key_globally_in_use_locked fault v.play_key d

-- `INSERT … SELECT … FROM streams WHERE id=? AND pending_delete=0`.
unfoldable pub parent_available : StreamViewer → Database → Bool
parent_available v d = map_or (find_stream v.stream_id d.streams) false (λ r. not r.pending_delete)

unfoldable pub viewer_add :
    Fault → StreamViewer → Database → Database × Result (Unit {0}) ViewerAddError
viewer_add fault v d =
    if not fault.query
    then (d, err ViewerAddError.db)
    else if is_default_play v d && not fault.key_query
    then (d, err ViewerAddError.db)
    else if viewer_key_taken fault v d
    then (d, err ViewerAddError.duplicate)
    else if not fault.statement
    then (d, err ViewerAddError.db)
    else if not (parent_available v d)
    then (d, err ViewerAddError.parent_unavailable)
    else if any_of (viewer_conflicts v) d.viewers
    then (d, err ViewerAddError.duplicate)
    else (add_viewer_row v d, ok tt)

-- `stream_viewers` joined with `streams`: the first enabled row with the key, and its stream.
unfoldable pub joined_row :
    Text → List StreamRow → List StreamViewer → DbLookup (StreamViewer × Stream)
joined_row key rs [] = absent
joined_row key rs (v ∷ vs) =
    let later = joined_row key rs vs in
    if v.play_key == key && v.enabled
    then map_or (find_stream v.stream_id rs) later (λ r. found (v, r.stream))
    else later

unfoldable pub viewer_and_stream_by_play_key :
    Fault → Text → Database → DbLookup (StreamViewer × Stream)
viewer_and_stream_by_play_key fault key d =
    if not (is_valid_access_key key)
    then absent
    else if fault.query
    then joined_row key d.streams d.viewers
    else failed

-- `ORDER BY created_at`: the callers only count and search the list.
unfoldable pub viewer_list_checked : Fault → Text → Database → Option (List StreamViewer)
viewer_list_checked fault stream_id d =
    if fault.query
    then some (keep (λ (v : StreamViewer). v.stream_id == stream_id) d.viewers)
    else none

unfoldable pub is_viewer : Text → Text → StreamViewer → Bool
is_viewer stream_id viewer_id v = v.stream_id == stream_id && v.id == viewer_id

unfoldable pub viewer_delete : Fault → Text → Text → Database → Database × Option Bool
viewer_delete fault stream_id viewer_id d =
    if fault.statement
    then (
      record d { viewers = keep (λ v. not (is_viewer stream_id viewer_id v)) d.viewers },
      some (any_of (is_viewer stream_id viewer_id) d.viewers),
    )
    else (d, none)

unfoldable pub deactivate : Text → Session → Session
deactivate viewer_id p =
    if p.viewer_id == viewer_id && p.active then record p { active = false } else p

-- Sessions whose row is still to be written keep their slots.
unfoldable pub resync_count : Text → Database → Map Text ℕ
resync_count viewer_id d =
    let pending = map_or (lookup viewer_id d.unpersisted_player_counts) 0 (λ n. n) in
    if nat_eqb pending 0
    then remove viewer_id d.active_player_counts
    else insert viewer_id pending d.active_player_counts

unfoldable pub players_deactivate_for_viewer : Fault → Text → Database → Database
players_deactivate_for_viewer fault viewer_id d =
    if fault.statement
    then record d {
      players = map (deactivate viewer_id) d.players;
      active_player_counts = resync_count viewer_id d;
    }
    else d
