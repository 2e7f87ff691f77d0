-- ===== src/Media/Queue/Defs.antt =====
-- src/cluster/media/live_queue.rs: configuration, entries, per-stream state and counters. Instants
-- and durations are nanoseconds. The two-level map `app -> stream -> state` is one map keyed by
-- the pair; an empty inner map, which `prune_idle` removes, has no counterpart.
use librtmp2_server.Base.{
  ℕ, ◌+◌, ◌-◌, ◌*◌, min, max, Bool, true, false, not, ◌&&◌, Option, none, some, List, Text, Map,
  length, map_or, is_some, if◌then◌else◌, nat_eqb, u64_mod, fetch_add_one,
}
use librtmp2_server.Media.Protocol.{
  DeliveryHint, critical, droppable, resync_point, MediaMessage, media_frame, init_cache,
}

abbrev pub ns_per_ms : ℕ
ns_per_ms = 1_000_000

abbrev pub default_max_media_age : ℕ
default_max_media_age = 3_000 * ns_per_ms

abbrev pub default_resync_wait_max : ℕ
default_resync_wait_max = 10_000 * ns_per_ms

abbrev pub default_max_messages : ℕ
default_max_messages = 1024

pub record LiveQueueConfig : Type 0 where
  pub max_messages : ℕ
  pub max_bytes : ℕ
  pub max_media_age : ℕ
  pub resync_wait_max : ℕ

-- `LiveQueueConfig::new(max_queue_mb, max_media_age_ms)`, for two `u32`.
unfoldable pub config_new : ℕ → ℕ → LiveQueueConfig
config_new max_queue_mb max_media_age_ms = record {
  max_messages = default_max_messages;
  max_bytes = max (min (max_queue_mb * (1024 * 1024)) (u64_mod - 1)) (1024 * 1024);
  max_media_age =
      if nat_eqb max_media_age_ms 0 then default_max_media_age else max_media_age_ms * ns_per_ms;
  resync_wait_max = default_resync_wait_max;
}

-- `v.len()` of an optional buffer.
abbrev part_len : Option Text → ℕ
part_len p = map_or p 0 length

unfoldable pub approx_size : MediaMessage → ℕ
approx_size (media_frame f) = length f.payload + 64
approx_size (init_cache c) =
    part_len c.metadata
    + part_len c.avc_header
    + part_len c.aac_header
    + map_or c.keyframe 0 (λ k. length k.1)
    + 64
approx_size _ = 128

pub data DropCause : Type 0 where
  oversized awaiting_resync full closed : DropCause

pub data PushResult : Type 0 where
  queued : PushResult
  dropped : DropCause → PushResult

pub record LiveQueueStats : Type 0 where
  pub dropped_total : ℕ
  pub dropped_droppable : ℕ
  pub dropped_stale : ℕ
  pub dropped_critical : ℕ
  pub oversized_dropped : ℕ
  pub resync_count : ℕ
  pub resync_timeouts : ℕ
  pub max_bytes_seen : ℕ
  pub max_messages_seen : ℕ
  pub max_age_ms_seen : ℕ

pub data Kind : Type 0 where
  control : Kind
  media : DeliveryHint → Kind

-- `Kind::of`.
unfoldable pub kind_of : MediaMessage → Kind
kind_of (media_frame f) = media f.hint
kind_of _ = control

unfoldable pub evictable : Kind → Bool
evictable control = false
evictable (media critical) = false
evictable (media _) = true

-- `kind == Kind::Media(hint)`, for each hint.
unfoldable pub is_critical : Kind → Bool
is_critical (media critical) = true
is_critical _ = false

unfoldable pub is_resync_point : Kind → Bool
is_resync_point (media resync_point) = true
is_resync_point _ = false

unfoldable pub is_droppable : Kind → Bool
is_droppable (media droppable) = true
is_droppable _ = false

-- The `(app, stream)` of a media frame.
abbrev pub Names : Type 0
Names = Text × Text

unfoldable pub message_names : MediaMessage → Option Names
message_names (media_frame f) = some (f.app, f.stream)
message_names _ = none

pub record Entry : Type 0 where
  pub msg : MediaMessage
  pub size : ℕ
  pub at : ℕ
  pub kind : Kind

pub record StreamState : Type 0 where
  pub awaiting_since : Option ℕ
  pub evictable_bytes : ℕ
  pub queued_frames : ℕ
  pub needs_reinit : Bool

-- `StreamState::default()`.
abbrev pub fresh_state : StreamState
fresh_state = record {
  awaiting_since = none;
  evictable_bytes = 0;
  queued_frames = 0;
  needs_reinit = false;
}

unfoldable pub idle : StreamState → Bool
idle s = not (is_some s.awaiting_since) && nat_eqb s.queued_frames 0 && not s.needs_reinit

pub data Reason : Type 0 where
  stale pressure : Reason

pub record Inner : Type 0 where
  pub entries : List Entry
  pub bytes : ℕ
  pub streams : Map Names StreamState
  pub is_closed : Bool
  pub reinit_dirty : Bool

-- The mutex's content, the counters, and the flag in front of `take_reinit`. `notify` only wakes
-- the writer task.
pub record LiveMediaQueue : Type 0 where
  pub inner : Inner
  pub cfg : LiveQueueConfig
  pub stats : LiveQueueStats
  pub reinit_pending : Bool

-- `Inner::count_drop`.
unfoldable pub count_drop : LiveQueueStats → Kind → Reason → LiveQueueStats
count_drop s (media critical) reason = record s {
  dropped_total = fetch_add_one s.dropped_total;
  dropped_critical = fetch_add_one s.dropped_critical;
}
count_drop s kind stale = record s {
  dropped_total = fetch_add_one s.dropped_total;
  dropped_stale = fetch_add_one s.dropped_stale;
}
count_drop s kind pressure = record s {
  dropped_total = fetch_add_one s.dropped_total;
  dropped_droppable = fetch_add_one s.dropped_droppable;
}
