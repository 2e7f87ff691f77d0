-- ===== src/Media/Protocol.antt =====
-- src/cluster/media/protocol.rs: the messages of the media plane. A `String` is its bytes, and the
-- `serde_json::Value` of `StatsResp` is the text of the value.
use librtmp2_server.Base.{ℕ, ◌≡◌, refl, Option, none, some, Text, ◌==◌, nat_eq, if◌then◌else◌}

-- The congestion class that librtmp2 gives to a frame.
pub data DeliveryHint : Type 0 where
  critical droppable resync_point : DeliveryHint

pub data FrameType : Type 0 where
  audio video script metadata : FrameType

pub record MediaFrame : Type 0 where
  pub app : Text
  pub stream : Text
  pub epoch : ℕ
  pub frame_type : ℕ
  pub timestamp : ℕ
  pub timeline_ts : ℕ
  pub hint : DeliveryHint
  pub payload : Text

pub record InitCache : Type 0 where
  pub app : Text
  pub stream : Text
  pub epoch : ℕ
  pub metadata : Option Text
  pub avc_header : Option Text
  pub aac_header : Option Text
  pub keyframe : Option (ℕ × Text)

pub data MediaMessage : Type 0 where
  hello : (version node_id : ℕ) → MediaMessage
  auth_challenge : (nonce : Text) → MediaMessage
  auth : (node_id : ℕ) (response : Text) → MediaMessage
  auth_ok auth_fail : MediaMessage
  subscribe : (app stream : Text) (epoch generation : ℕ) → MediaMessage
  unsubscribe : (app stream : Text) → MediaMessage
  stream_start : (app stream : Text) (epoch owner_node : ℕ) → MediaMessage
  stream_stop : (app stream : Text) (epoch : ℕ) → MediaMessage
  init_cache : InitCache → MediaMessage
  media_frame : MediaFrame → MediaMessage
  error : (code message : Text) (generation : ℕ) → MediaMessage
  stats_req : (stream_id : Text) → MediaMessage
  stats_resp : (stream_id body : Text) → MediaMessage

abbrev pub media_protocol_version : ℕ
media_protocol_version = 2

abbrev pub media_protocol_min_version : ℕ
media_protocol_min_version = 1

unfoldable pub frame_type_from_librtmp2 : FrameType → ℕ
frame_type_from_librtmp2 audio = 0
frame_type_from_librtmp2 video = 1
frame_type_from_librtmp2 script = 2
frame_type_from_librtmp2 metadata = 3

unfoldable pub frame_type_to_librtmp2 : ℕ → Option FrameType
frame_type_to_librtmp2 v =
    if v == 0
    then some audio
    else (if v == 1
        then some video
        else (if v == 2 then some script else (if v == 3 then some metadata else none)))

pub frame_type_to_from :
    (t : FrameType) → frame_type_to_librtmp2 (frame_type_from_librtmp2 t) ≡ some t
unfolding frame_type_from_librtmp2 frame_type_to_librtmp2
frame_type_to_from audio = refl
frame_type_to_from video = refl
frame_type_to_from script = refl
frame_type_to_from metadata = refl
