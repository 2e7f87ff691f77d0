-- ===== src/Media/Cache.antt =====
-- src/cluster/media/cache.rs: the init fields that are staged for a subscriber. The kinds of a frame
-- are librtmp2's, and so is the function that tells them, a parameter here.
use librtmp2_server.Base.{
  ℕ, ◌≡◌, ◌≤◌, refl, sym, subst, arith, Bool, true, false, not, ◌||◌, Option, none, some, List, [],
  ◌∷◌, Text, Map, lookup, insert, remove, keep, All, All-keep, map_or, if◌then◌else◌, if-elim, ltb,
  nat_eqb, text_eq, pair_eq, ◌==◌, lookup-insert,
}
use librtmp2_server.Media.Protocol.{FrameType, frame_type_to_librtmp2}
pub mod Epochs
mod Tests

pub data CacheFrameKind : Type 0 where
  video_sequence_header video_keyframe audio_sequence_header live_only : CacheFrameKind

pub record InitCacheEntry : Type 0 where
  pub metadata : Option Text
  pub avc_header : Option Text
  pub aac_header : Option Text
  pub keyframe : Option (ℕ × Text)
  pub epoch : ℕ

abbrev pub default_entry : InitCacheEntry
default_entry = record {
  metadata = none;
  avc_header = none;
  aac_header = none;
  keyframe = none;
  epoch = 0;
}

-- The key is the app and the stream.
abbrev pub Names : Type 0
Names = Text × Text

abbrev pub InitCacheStore : Type 0
InitCacheStore = Map Names InitCacheEntry

unfoldable pub put_if_epoch_ge : Names → InitCacheEntry → InitCacheStore → InitCacheStore × Bool
put_if_epoch_ge key entry g =
    if map_or (lookup key g) false (λ existing. ltb entry.epoch existing.epoch)
    then (g, false)
    else (insert key entry g, true)

unfoldable pub put : Names → InitCacheEntry → InitCacheStore → InitCacheStore
put key entry g = (put_if_epoch_ge key entry g).0

unfoldable pub get : Names → InitCacheStore → Option InitCacheEntry
get key g = lookup key g

unfoldable pub remove_entry : Names → InitCacheStore → InitCacheStore
remove_entry key g = remove key g

unfoldable pub remove_stream : Text → InitCacheStore → InitCacheStore
remove_stream stream g = keep (λ (x : Names × InitCacheEntry). not (x.0.1 == stream)) g

-- A newer epoch starts from an empty entry.
unfoldable pub enter_epoch : ℕ → InitCacheEntry → InitCacheEntry
enter_epoch epoch e = if ltb e.epoch epoch then record default_entry { epoch = epoch } else e

unfoldable pub same_header : Option Text → Text → Bool
same_header none payload = false
same_header (some h) payload = h == payload

unfoldable pub stage : CacheFrameKind → ℕ → ℕ → Text → InitCacheEntry → InitCacheEntry
stage video_sequence_header frame_type timestamp payload e = record e {
  keyframe = if same_header e.avc_header payload then e.keyframe else none;
  avc_header = some payload;
}
stage video_keyframe frame_type timestamp payload e = record e {
  keyframe = some (timestamp, payload);
}
stage audio_sequence_header frame_type timestamp payload e = record e { aac_header = some payload }
stage live_only frame_type timestamp payload e =
    if nat_eqb frame_type 2 || nat_eqb frame_type 3 then record e { metadata = some payload } else e

unfoldable pub update_entry : CacheFrameKind → ℕ → ℕ → ℕ → Text → InitCacheEntry → InitCacheEntry
update_entry kind epoch frame_type timestamp payload e =
    if ltb epoch e.epoch then e else stage kind frame_type timestamp payload (enter_epoch epoch e)

-- `entry(key).or_default()`.
unfoldable pub entry_at : Names → InitCacheStore → InitCacheEntry
entry_at key g = map_or (lookup key g) default_entry (λ e. e)

module _ (classify_cache_frame : FrameType → Text → CacheFrameKind) where
  unfoldable pub update_from_frame : Names → ℕ → ℕ → ℕ → Text → InitCacheStore → InitCacheStore
  update_from_frame key epoch frame_type timestamp payload g =
      map_or (frame_type_to_librtmp2 frame_type) g (λ ft.
        insert key
          (update_entry (classify_cache_frame ft payload) epoch frame_type timestamp payload
            (entry_at key g))
          g)

-- A call that stages something: an entry from the wire or from a snapshot, or a frame.
pub data Staging : Type 0 where
  whole : InitCacheEntry → Staging
  frame : (epoch frame_type timestamp : ℕ) → (payload : Text) → Staging

module _ (classify_cache_frame : FrameType → Text → CacheFrameKind) where
  unfoldable pub stage_call : Names → Staging → InitCacheStore → InitCacheStore
  stage_call key (whole entry) g = put key entry g
  stage_call key (frame epoch frame_type timestamp payload) g =
      update_from_frame classify_cache_frame key epoch frame_type timestamp payload g

  unfoldable pub stage_calls : List (Names × Staging) → InitCacheStore → InitCacheStore
  stage_calls [] g = g
  stage_calls (c ∷ cs) g = stage_calls cs (stage_call c.0 c.1 g)

unfoldable pub staged_epoch : Names → InitCacheStore → ℕ
staged_epoch key g = map_or (lookup key g) 0 (λ e. e.epoch)
