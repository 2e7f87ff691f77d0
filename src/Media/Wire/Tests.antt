-- ===== src/Media/Wire/Tests.antt =====
-- src/cluster/media/wire.rs: concrete frames, and the theorems at them.
use librtmp2_server.Base.{
  ℕ, zero, suc, ◌+◌, ◌≡◌, ◌≤◌, refl, arith, Option, none, some, [], ◌∷◌, ◌++◌, Text, length,
}
use librtmp2_server.Db.Tables.{ok, err}
use librtmp2_server.Media.Protocol
use librtmp2_server.Media.Protocol.{
  DeliveryHint, critical, droppable, resync_point, MediaMessage, MediaFrame, InitCache, media_frame,
  init_cache,
}
use librtmp2_server.Media.Wire.Bytes.{length_mismatch, from_be, slice, from_be_on, lead, utf8_from}
use librtmp2_server.Media.Wire.Write.{write_frame, max_frame}
use librtmp2_server.Media.Wire.Write
use librtmp2_server.Media.Wire.Read.{read_frame}
use librtmp2_server.Media.Wire.Read
use librtmp2_server.Media.Wire.Lengths.{granted, Reads}
use librtmp2_server.Media.Wire.Took.{After}
use librtmp2_server.Media.Wire.Sync.{read_frame-Framed}
use librtmp2_server.Media.Wire.RoundTrip.{FrameFits, media_frame-round_trip}
use librtmp2_server.Media.Wire.InitRoundTrip.{CacheFits, init_cache-round_trip}

abbrev to_u8 : DeliveryHint → ℕ
to_u8 critical = 0
to_u8 resync_point = 1
to_u8 droppable = 2

abbrev from_u8 : ℕ → Option DeliveryHint
from_u8 zero = some critical
from_u8 (suc zero) = some resync_point
from_u8 (suc (suc zero)) = some droppable
from_u8 (suc (suc (suc n))) = none

hint_codes : (h : DeliveryHint) → from_u8 (to_u8 h) ≡ some h
hint_codes critical = refl
hint_codes resync_point = refl
hint_codes droppable = refl

abbrev no_json : MediaMessage → Option Text
no_json msg = none

abbrev no_message : Text → Option MediaMessage
no_message bs = none

abbrev frame : MediaFrame
frame = record {
  app = b'l' ∷ [];
  stream = b's' ∷ b'1' ∷ [];
  epoch = 2;
  frame_type = 1;
  timestamp = 300;
  timeline_ts = 4;
  hint = droppable;
  payload = 9 ∷ 8 ∷ 7 ∷ [];
}

abbrev written : Text
written =
    0 ∷ 0 ∷ 0 ∷ 33 ∷ 1 ∷ 2 ∷ 1 ∷ 0 ∷ 0 ∷ 0 ∷ 0 ∷ 0 ∷ 0 ∷ 0 ∷ 0 ∷ 2 ∷ 0 ∷ 0 ∷ 1 ∷ 44 ∷ 0 ∷ 0 ∷ 0 ∷ 4
    ∷ 1 ∷ 0 ∷ 2 ∷ 0 ∷ 0 ∷ 0 ∷ 3 ∷ b'l' ∷ b's' ∷ b'1' ∷ 9 ∷ 8 ∷ 7 ∷ []

write_bytes : write_frame to_u8 no_json (media_frame frame) 2 ≡ ok written
unfolding write_frame Write.write_frame_v2 Write.check_names Write.frame_len Write.write_media_frame
write_bytes = refl

frame-FrameFits : FrameFits frame
frame-FrameFits = record {
  app_utf8 = unfold utf8_from lead in refl;
  stream_utf8 = unfold utf8_from lead in refl;
  app_short = omega arith;
  stream_short = omega arith;
  known_type = unfold Protocol.frame_type_to_librtmp2 in refl;
  epoch_u64 = omega arith;
  timestamp_u32 = omega arith;
  timeline_u32 = omega arith;
  fits = omega arith;
}

-- A budget that counts what it has granted.
abbrev count : ℕ → ℕ → ℕ
count n b = b + n

media_frame-round_trip_example :
    (bytes : Text) × (write_frame to_u8 no_json (media_frame frame) 2 ≡ ok bytes)
    × Reads count
        (read_frame
          (granted count)
          from_u8
          no_message
          (λ n. some 0)
          2
          max_frame
          (bytes ++ (1 ∷ 2 ∷ [])))
        (media_frame frame)
        (1 ∷ 2 ∷ [])
media_frame-round_trip_example =
    media_frame-round_trip to_u8 from_u8 hint_codes count (λ n. 0) no_json no_message frame
      frame-FrameFits 2 max_frame (1 ∷ 2 ∷ []) (omega arith) (omega arith)

abbrev cache : InitCache
cache = record {
  app = b'l' ∷ [];
  stream = b's' ∷ [];
  epoch = 2;
  metadata = none;
  avc_header = some (5 ∷ 6 ∷ []);
  aac_header = none;
  keyframe = some (77, 1 ∷ []);
}

cache-CacheFits : CacheFits cache
cache-CacheFits = record {
  app_utf8 = unfold utf8_from lead in refl;
  stream_utf8 = unfold utf8_from lead in refl;
  app_short = omega arith;
  stream_short = omega arith;
  epoch_u64 = omega arith;
  keyframe_u32 = unfold Write.keyframe_ts in omega arith;
  fits = unfold Write.init_len Write.part_len Write.keyframe_part in omega arith;
}

init_cache-round_trip_example :
    (bytes : Text) × (write_frame to_u8 no_json (init_cache cache) 2 ≡ ok bytes)
    × Reads count
        (read_frame
          (granted count)
          from_u8
          no_message
          (λ n. some 0)
          2
          max_frame
          (bytes ++ (1 ∷ 2 ∷ [])))
        (init_cache cache)
        (1 ∷ 2 ∷ [])
init_cache-round_trip_example =
    init_cache-round_trip to_u8 from_u8 count (λ n. 0) no_json no_message cache cache-CacheFits 2
      max_frame (1 ∷ 2 ∷ []) (omega arith)
      (unfold Write.init_len Write.part_len Write.keyframe_part in omega arith)

-- A frame whose three lengths do not add up is refused.
wrong_length :
    read_frame
      (granted count)
      from_u8
      no_message
      (λ n. some 0)
      2
      max_frame
      (0 ∷ 0 ∷ 0 ∷ 27 ∷ 1 ∷ 2 ∷ 1 ∷ 0 ∷ 0 ∷ 0 ∷ 0 ∷ 0 ∷ 0 ∷ 0 ∷ 0 ∷ 2 ∷ 0 ∷ 0 ∷ 1 ∷ 44 ∷ 0 ∷ 0 ∷ 0
        ∷ 4 ∷ 1 ∷ 0 ∷ 2 ∷ 0 ∷ 0 ∷ 0 ∷ 3 ∷ [])
    ≡ err length_mismatch
unfolding read_frame Read.take_exact Read.read_after_len Read.read_body Read.read_exact_budgeted
    Read.read_kind Read.read_body_v2 Read.read_media_frame_v2 Read.read_media_header
    Read.read_media_checked Protocol.frame_type_to_librtmp2 from_be_on
wrong_length = refl

read_frame-Framed_example :
    After
      (λ msg rest.
        (from_be (slice 0 4 written) ≤ max_frame)
        × (length written ≡ 4 + from_be (slice 0 4 written) + length rest))
      (read_frame (granted count) from_u8 no_message (λ n. some 0) 2 max_frame written)
read_frame-Framed_example =
    read_frame-Framed (granted count) from_u8 no_message (λ n. some 0) 2 max_frame written
