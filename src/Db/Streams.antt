-- ===== src/Db/Streams.antt =====
-- src/db.rs: the calls on `streams`, and on `settings`.
use librtmp2_server.Base.{
  ℕ, Bool, true, false, not, ◌&&◌, ◌||◌, Option, none, some, [], ◌∷◌, ◌++◌, Text, insert, any_of,
  keep, map, map_or, if◌then◌else◌, nat_eqb, text_eq, ◌==◌,
}
use librtmp2_server.Db.Tables.{
  Stream, StreamRow, StreamViewer, StreamOwner, Session, Database, Fault, StreamAddError,
  StreamDisableOutcome, disabled, missing, stale, Result, ok, err, has_id,
  key_globally_in_use_locked,
}

-- The loop over the three keys.
unfoldable pub stream_keys_in_use : Fault → Stream → Database → Bool
stream_keys_in_use fault s d =
    key_globally_in_use_locked fault s.publish_key d
    || (key_globally_in_use_locked fault s.play_key d
        || key_globally_in_use_locked fault s.stats_key d)

-- `INSERT INTO streams`: PRIMARY KEY and the three UNIQUE columns.
unfoldable pub stream_conflicts : Stream → StreamRow → Bool
stream_conflicts s r =
    r.stream.id == s.id
    || (r.stream.publish_key == s.publish_key
        || (r.stream.play_key == s.play_key || r.stream.stats_key == s.stats_key))

unfoldable pub add_stream_row : Stream → Text → Database → Database
add_stream_row s token d = record d {
  streams = d.streams ++ (record { stream = s; pending_delete = false; delete_token = token } ∷ []);
}

unfoldable pub stream_insert_only_with_token :
    Fault → Stream → Text → Database → Database × Result (Unit {0}) StreamAddError
stream_insert_only_with_token fault s delete_token d =
    if stream_keys_in_use fault s d
    then (d, err StreamAddError.duplicate)
    else if not fault.statement
    then (d, err StreamAddError.db)
    else if any_of (stream_conflicts s) d.streams
    then (d, err StreamAddError.duplicate)
    else (add_stream_row s delete_token d, ok tt)

-- `INSERT INTO stream_viewers`: PRIMARY KEY and the UNIQUE play key.
unfoldable pub viewer_conflicts : StreamViewer → StreamViewer → Bool
viewer_conflicts v w = w.id == v.id || w.play_key == v.play_key

unfoldable pub add_viewer_row : StreamViewer → Database → Database
add_viewer_row v d = record d { viewers = d.viewers ++ (v ∷ []) }

-- The two inserts in one transaction, which a failure rolls back.
unfoldable pub stream_add_with_viewer_with_token :
    Fault → Stream → StreamViewer → Text → Database → Database × Result (Unit {0}) StreamAddError
stream_add_with_viewer_with_token fault s viewer delete_token d =
    if not (viewer.stream_id == s.id) || not (viewer.play_key == s.play_key)
    then (d, err StreamAddError.db)
    else if stream_keys_in_use fault s d
    then (d, err StreamAddError.duplicate)
    else if not fault.statement
    then (d, err StreamAddError.db)
    else if any_of (stream_conflicts s) d.streams
    then (d, err StreamAddError.duplicate)
    else if any_of (viewer_conflicts viewer) d.viewers
    then (d, err StreamAddError.db)
    else (add_viewer_row viewer (add_stream_row s delete_token d), ok tt)

-- The WHERE clause of each of the four updates.
unfoldable pub identity_matches : Option ℕ → Option Text → StreamRow → Bool
identity_matches created token r =
    map_or created true (λ c. nat_eqb r.stream.created_at c)
    && map_or token true (λ t. r.delete_token == t)

unfoldable pub disable_row : Text → Option ℕ → Option Text → StreamRow → StreamRow
disable_row id created token r =
    if has_id id r && identity_matches created token r
    then record r { stream = record r.stream { enabled = false }; pending_delete = true }
    else r

unfoldable pub stream_disable_expecting :
    Fault → Text → Option ℕ → Option Text → Database → Database × Option StreamDisableOutcome
stream_disable_expecting fault id created token d =
    if not fault.statement
    then (d, none)
    else if any_of (λ r. has_id id r && identity_matches created token r) d.streams
    then (record d { streams = map (disable_row id created token) d.streams }, some disabled)
    else if not fault.query
    then (d, none)
    else if any_of (has_id id) d.streams
    then (d, some stale)
    else (d, some missing)

unfoldable pub stream_disable : Fault → Text → Database → Database × Option Bool
stream_disable fault id d =
    let (d', outcome) = stream_disable_expecting fault id none none d in
    (d', map_or outcome none (λ o. some (elim o [ disabled ↦ true | _ ↦ false ])))

unfoldable pub enable_row : Text → Bool → StreamRow → StreamRow
enable_row id enabled r =
    if has_id id r
    then record r { stream = record r.stream { enabled = enabled }; pending_delete = false }
    else r

unfoldable pub stream_set_enabled : Fault → Text → Bool → Database → Database × Bool
stream_set_enabled fault id enabled d =
    if fault.statement
    then (
      record d { streams = map (enable_row id enabled) d.streams },
      any_of (has_id id) d.streams,
    )
    else (d, false)

-- `DELETE FROM streams WHERE …`, with `ON DELETE CASCADE` on the tables that refer to the row.
unfoldable pub delete_stream_rows : Text → Database → Database
delete_stream_rows id d = record d {
  streams = keep (λ (r : StreamRow). not (has_id id r && r.pending_delete)) d.streams;
  viewers = keep (λ (v : StreamViewer). not (v.stream_id == id)) d.viewers;
  owners = keep (λ (o : StreamOwner). not (o.stream_id == id)) d.owners;
  publishers = keep (λ (p : Session). not (p.stream_id == id)) d.publishers;
  players = keep (λ (p : Session). not (p.stream_id == id)) d.players;
}

unfoldable pub stream_delete_if_pending : Fault → Text → Database → Database × Option Bool
stream_delete_if_pending fault id d =
    if not fault.statement
    then (d, none)
    else if any_of (λ (r : StreamRow). has_id id r && r.pending_delete) d.streams
    then (delete_stream_rows id d, some true)
    else (d, some false)

abbrev pub api_token_key : Text
api_token_key = b'a' ∷ b'p' ∷ b'i' ∷ b'_' ∷ b't' ∷ b'o' ∷ b'k' ∷ b'e' ∷ b'n' ∷ []

abbrev pub cluster_id_key : Text
cluster_id_key = b'c' ∷ b'l' ∷ b'u' ∷ b's' ∷ b't' ∷ b'e' ∷ b'r' ∷ b'_' ∷ b'i' ∷ b'd' ∷ []

unfoldable pub setting_set : Fault → Text → Text → Database → Database × Result (Unit {0}) Text
setting_set fault key val d =
    if fault.statement
    then (record d { settings = insert key val d.settings }, ok tt)
    else (d, err fault.message)

unfoldable pub token_replace : Fault → Text → Database → Database × Result (Unit {0}) Text
token_replace fault token d = setting_set fault api_token_key token d
