-- ===== src/Media/Queue/Ops.antt =====
-- src/cluster/media/live_queue.rs, `impl LiveMediaQueue`: push, pop, close, reconnect, the reinit
-- flag and the snapshot. Each method holds the lock throughout, so it is one step.
use librtmp2_server.Base.{
  ℕ, suc, ◌+◌, ◌-◌, ◌/◌, max, Bool, true, false, Option, none, some, List, [], ◌∷◌, ◌++◌, Map,
  pair_eq, text_eq, lookup, keep, any_of, length, map_or, if◌then◌else◌, ltb, fetch_add_one,
}
use librtmp2_server.Media.Protocol.{droppable, resync_point, MediaMessage}
use librtmp2_server.Media.Queue.Defs.{
  LiveQueueConfig, LiveQueueStats, Kind, control, media, Entry, StreamState, Names, Inner, stale,
  pressure, oversized, awaiting_resync, full, closed, PushResult, queued, dropped, LiveMediaQueue,
  ns_per_ms, kind_of, approx_size, evictable, message_names, count_drop,
}
use librtmp2_server.Media.Queue.Inner.{
  modify_state, update_state, start_waiting, stop_waiting, prune_idle, is_awaiting, account_removed,
  purge_stream, enforce_age, count_resync, make_room, flag_reinit, release_expired_waits,
}

abbrev pub zero_stats : LiveQueueStats
zero_stats = record {
  dropped_total = 0;
  dropped_droppable = 0;
  dropped_stale = 0;
  dropped_critical = 0;
  oversized_dropped = 0;
  resync_count = 0;
  resync_timeouts = 0;
  max_bytes_seen = 0;
  max_messages_seen = 0;
  max_age_ms_seen = 0;
}

-- `LiveMediaQueue::new`.
abbrev pub new : LiveQueueConfig → LiveMediaQueue
new cfg = record {
  inner = record { entries = []; bytes = 0; streams = []; is_closed = false; reinit_dirty = false };
  cfg = cfg;
  stats = zero_stats;
  reinit_pending = false;
}

-- Half the byte bound for media, the whole bound for control messages.
unfoldable pub size_limit : Kind → LiveQueueConfig → ℕ
size_limit control cfg = cfg.max_bytes
size_limit (media _) cfg = cfg.max_bytes / 2

-- What happens to an arriving frame whose stream waits for a resync point, before room is made:
-- `none` means that it is dropped.
unfoldable pub arrive_waiting :
    Kind → Names → Inner → LiveQueueStats → Bool × (Inner × LiveQueueStats)
arrive_waiting (media droppable) k g s = (false, (g, count_drop s (media droppable) pressure))
arrive_waiting (media resync_point) k g s =
    let (g', s') = purge_stream k stale g s in
    (true, (update_state k stop_waiting g', count_resync s'))
arrive_waiting _ k g s = (true, (g, s))

-- The same after room was made, with no purge.
unfoldable pub settle_waiting :
    Kind → Names → Inner → LiveQueueStats → Bool × (Inner × LiveQueueStats)
settle_waiting (media droppable) k g s = (false, (g, count_drop s (media droppable) pressure))
settle_waiting (media resync_point) k g s = (true, (update_state k stop_waiting g, count_resync s))
settle_waiting _ k g s = (true, (g, s))

-- `if let (Media(hint), Some(names)) = … && is_awaiting(names)`: the test before either.
unfoldable pub gate :
    (Kind → Names → Inner → LiveQueueStats → Bool × (Inner × LiveQueueStats))
    → MediaMessage
    → Inner
    → LiveQueueStats
    → Bool × (Inner × LiveQueueStats)
gate step msg g s =
    map_or (message_names msg) (true, (g, s))
      (λ k. if is_awaiting k g then step (kind_of msg) k g s else (true, (g, s)))

-- `as_millis() as u64`.
unfoldable pub head_age_ms : List Entry → ℕ → ℕ
head_age_ms [] now = 0
head_age_ms (e ∷ _) now = (now - e.at) / ns_per_ms

unfoldable pub note_high_water : Inner → ℕ → LiveQueueStats → LiveQueueStats
note_high_water g now s = record s {
  max_bytes_seen = max s.max_bytes_seen g.bytes;
  max_messages_seen = max s.max_messages_seen (length g.entries);
  max_age_ms_seen = max s.max_age_ms_seen (head_age_ms g.entries now);
}

unfoldable pub add_frame : Kind → ℕ → StreamState → StreamState
add_frame kind size st = record st {
  queued_frames = st.queued_frames + 1;
  evictable_bytes = if evictable kind then st.evictable_bytes + size else st.evictable_bytes;
}

-- The book-keeping of a queued frame, and whether its stream asks for the init cache.
unfoldable pub book_frame : MediaMessage → ℕ → Inner → Inner
book_frame msg size g =
    map_or (message_names msg) g (λ k. modify_state k (add_frame (kind_of msg) size) g)

unfoldable pub asks_reinit : MediaMessage → Inner → Bool
asks_reinit msg g =
    map_or (message_names msg) false
      (λ k. map_or (lookup k g.streams) false (λ st. st.needs_reinit))

unfoldable pub append_entry : MediaMessage → ℕ → ℕ → Inner → Inner
append_entry msg size now g = record g {
  bytes = g.bytes + size;
  entries = g.entries ++ (record { msg = msg; size = size; at = now; kind = kind_of msg } ∷ []);
}

unfoldable pub enqueue : MediaMessage → ℕ → LiveMediaQueue → Inner → LiveQueueStats → LiveMediaQueue
enqueue msg now q g s =
    let g' = append_entry msg (approx_size msg) now (book_frame msg (approx_size msg) g) in
    record q {
      inner = g';
      stats = note_high_water g' now s;
      reinit_pending = if asks_reinit msg g' then true else q.reinit_pending;
    }

-- `if std::mem::take(&mut g.reinit_dirty) { reinit_pending = true }`
unfoldable pub publish_reinit : LiveMediaQueue → Inner → LiveQueueStats → LiveMediaQueue
publish_reinit q g s = record q {
  inner = record g { reinit_dirty = false };
  stats = s;
  reinit_pending = if g.reinit_dirty then true else q.reinit_pending;
}

-- Behind a successful `make_room`.
unfoldable pub finish_push : MediaMessage → ℕ → LiveMediaQueue → LiveMediaQueue × PushResult
finish_push msg now q =
    let (on, (g, s)) = gate settle_waiting msg q.inner q.stats in
    if on
    then (enqueue msg now q g s, queued)
    else (record q { inner = g; stats = s }, dropped awaiting_resync)

-- Only media is counted when there is no room.
unfoldable pub count_refused : Kind → LiveQueueStats → LiveQueueStats
count_refused control s = s
count_refused (media h) s = count_drop s (media h) pressure

unfoldable pub place :
    MediaMessage → ℕ → LiveMediaQueue → Bool × Inner × LiveQueueStats → LiveMediaQueue × PushResult
place msg now q (true, g, s) = finish_push msg now (publish_reinit q g s)
place msg now q (false, g, s) = (publish_reinit q g (count_refused (kind_of msg) s), dropped full)

-- Every round of `make_room` that goes on removes an entry, so one round more than there are
-- entries is enough.
unfoldable pub push_open : MediaMessage → ℕ → LiveMediaQueue → Option (LiveMediaQueue × PushResult)
push_open msg now q =
    let (g, s) = enforce_age now q.cfg q.inner q.stats in
    let (g', s') = release_expired_waits now q.cfg g s in
    let (on, (g'', s'')) = gate arrive_waiting msg g' s' in
    if on
    then map_or (make_room (suc (length g''.entries)) (approx_size msg) now q.cfg g'' s'') none
        (λ r. some (place msg now q r))
    else some (record q { inner = g''; stats = s'' }, dropped awaiting_resync)

unfoldable pub count_oversized : LiveQueueStats → LiveQueueStats
count_oversized s = record s {
  dropped_total = fetch_add_one s.dropped_total;
  oversized_dropped = fetch_add_one s.oversized_dropped;
}

unfoldable pub push_at : MediaMessage → ℕ → LiveMediaQueue → Option (LiveMediaQueue × PushResult)
push_at msg now q =
    if q.inner.is_closed
    then some (q, dropped closed)
    else if ltb (size_limit (kind_of msg) q.cfg) (approx_size msg)
    then some (record q { stats = count_oversized q.stats }, dropped oversized)
    else push_open msg now q

-- `entries.pop_front()`, on the entries.
unfoldable pub pop_front :
    List Entry → Inner → LiveQueueStats → LiveMediaQueue → LiveMediaQueue × Option MediaMessage
pop_front [] g s q = (record q { inner = g; stats = s }, none)
pop_front (e ∷ es) g s q =
    (record q { inner = account_removed e (record g { entries = es }); stats = s }, some e.msg)

unfoldable pub pop_at : ℕ → LiveMediaQueue → LiveMediaQueue × Option MediaMessage
pop_at now q =
    if q.inner.is_closed
    then (q, none)
    else let (g, s) = enforce_age now q.cfg q.inner (note_high_water q.inner now q.stats) in
      let (g', s') = release_expired_waits now q.cfg g s in pop_front g'.entries g' s' q

unfoldable pub close : LiveMediaQueue → LiveMediaQueue
close q = record q {
  inner = record q.inner { is_closed = true; entries = []; bytes = 0; streams = [] };
}

-- The streams that hold evictable bytes are purged and wait for a resync point.
unfoldable pub reset_streams :
    Map Names StreamState → ℕ → Inner → LiveQueueStats → Inner × LiveQueueStats
reset_streams [] now g s = (g, s)
reset_streams ((k, _) ∷ rest) now g s =
    let (g', s') = purge_stream k stale g s in
    reset_streams rest now (modify_state k (start_waiting now) g') s'

unfoldable pub holds_evictable : Names × StreamState → Bool
holds_evictable (k, st) = ltb 0 st.evictable_bytes

unfoldable pub on_connection_reset : ℕ → LiveMediaQueue → LiveMediaQueue
on_connection_reset now q =
    let (g, s) = reset_streams (keep holds_evictable q.inner.streams) now q.inner q.stats in
    record q { inner = g; stats = s }

unfoldable pub clear_reinit : StreamState → StreamState
clear_reinit st = record st { needs_reinit = false }

unfoldable pub reinit_taken : Names → LiveMediaQueue → LiveMediaQueue × Bool
reinit_taken k q =
    let taken = map_or (lookup k q.inner.streams) false (λ st. st.needs_reinit) in
    let g = update_state k clear_reinit q.inner in
    let pending = any_of (λ (x : Names × StreamState). x.1.needs_reinit) g.streams in
    (record q { inner = prune_idle k g; reinit_pending = pending }, taken)

unfoldable pub take_reinit : Names → LiveMediaQueue → LiveMediaQueue × Bool
take_reinit k q = if q.reinit_pending then reinit_taken k q else (q, false)

unfoldable pub mark_reinit : Names → LiveMediaQueue → LiveMediaQueue
mark_reinit k q = record q { inner = modify_state k flag_reinit q.inner; reinit_pending = true }
