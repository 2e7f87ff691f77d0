-- ===== src/Media/Cache/Tests.antt =====
-- src/cluster/media/cache.rs: a failover, and the theorems at it.
use librtmp2_server.Base.{
  ℕ, ◌≡◌, ◌≤◌, refl, none, some, List, [], ◌∷◌, Text, lookup, insert, text_eqb,
}
use librtmp2_server.Media.Protocol
use librtmp2_server.Media.Protocol.{FrameType, audio, video, script, metadata}
use librtmp2_server.Media.Cache
use librtmp2_server.Media.Cache.{
  CacheFrameKind, video_sequence_header, audio_sequence_header, live_only, InitCacheEntry, Names,
  InitCacheStore, Staging, whole, frame, stage_call, stage_calls, staged_epoch, get,
}
use librtmp2_server.Media.Cache.Epochs.{AllSourced, stage_calls-Sourced, stage_call-epoch}

abbrev classify : FrameType → Text → CacheFrameKind
classify audio payload = audio_sequence_header
classify video payload = video_sequence_header
classify script payload = live_only
classify metadata payload = live_only

abbrev names : Names
names = (b'l' ∷ [], b's' ∷ [])

-- The payload names the epoch. The frame of epoch 2 replaces the entry of epoch 1, and the last
-- frame comes too late.
abbrev calls : List (Names × Staging)
calls =
    (names, frame 1 0 5 (1 ∷ []))
    ∷ (names, frame 1 1 6 (1 ∷ []))
    ∷ (names, frame 2 1 7 (2 ∷ []))
    ∷ (names, frame 1 0 8 (1 ∷ []))
    ∷ []

staged :
    get names (stage_calls classify calls [])
    ≡ some (record {
      metadata = none;
      avc_header = some (2 ∷ []);
      aac_header = none;
      keyframe = none;
      epoch = 2;
    })
unfolding get stage_calls stage_call Cache.update_from_frame Cache.update_entry Cache.enter_epoch
    Cache.stage Cache.entry_at Cache.same_header Protocol.frame_type_to_librtmp2 lookup insert
    text_eqb
staged = refl

abbrev Labelled : ℕ → Text → Type 0
Labelled epoch payload = payload ≡ epoch ∷ []

stage_calls-Sourced_example : AllSourced Labelled (stage_calls classify calls [])
stage_calls-Sourced_example =
    stage_calls-Sourced Labelled classify calls [] (refl, (refl, (refl, (refl, tt)))) tt

stage_call-epoch_example :
    staged_epoch names (stage_calls classify calls [])
    ≤ staged_epoch names
        (stage_call classify names (frame 1 0 9 (1 ∷ [])) (stage_calls classify calls []))
stage_call-epoch_example =
    stage_call-epoch classify names names (frame 1 0 9 (1 ∷ [])) (stage_calls classify calls [])
