-- ===== src/Media/Wire/Write.antt =====
-- src/cluster/media/wire.rs: writing a frame. What is written is the list of its bytes; whether a
-- payload is sent in the same call of `write_all` does not show. `serde_json` and the codes of
-- `DeliveryHint` are parameters.
use librtmp2_server.Base.{
  ℕ, ◌+◌, ◌*◌, ◌%◌, ◌^◌, ◌||◌, Option, none, some, [], ◌∷◌, ◌++◌, Text, length, if◌then◌else◌, ltb,
}
use librtmp2_server.Db.Tables.{Result, ok, err}
use librtmp2_server.Media.Protocol.{
  DeliveryHint, MediaMessage, MediaFrame, InitCache, media_frame, init_cache,
}
use librtmp2_server.Media.Wire.Bytes.{
  WireError, frame_too_large, control_too_large, name_too_long, encode_failed, be16, be32, be64,
}

abbrev pub max_frame : ℕ
max_frame = 32 * 1024 * 1024

abbrev pub max_control_frame : ℕ
max_control_frame = 256 * 1024

abbrev pub max_app_len : ℕ
max_app_len = 255

abbrev pub max_stream_len : ℕ
max_stream_len = 1024

abbrev pub kind_control : ℕ
kind_control = 0

abbrev pub kind_media_frame : ℕ
kind_media_frame = 1

abbrev pub kind_init_cache : ℕ
kind_init_cache = 2

abbrev pub media_fixed_len : ℕ
media_fixed_len = 26

abbrev pub init_fixed_len : ℕ
init_fixed_len = 16

abbrev pub Checked : Type 0
Checked = Result (Unit {0}) WireError

-- The `?` operator.
abbrev pub and_then {ℓ κ} :
    {A : Type ℓ} {B : Type κ} → Result A WireError → (A → Result B WireError) → Result B WireError
and_then (ok a) f = f a
and_then (err e) f = err e

unfoldable pub check_names : Text → Text → Checked
check_names app stream =
    if ltb max_app_len (length app) || ltb max_stream_len (length stream)
    then err name_too_long
    else ok tt

unfoldable pub check_message_names : MediaMessage → Checked
check_message_names (MediaMessage.subscribe app stream epoch generation) = check_names app stream
check_message_names (MediaMessage.unsubscribe app stream) = check_names app stream
check_message_names (MediaMessage.stream_start app stream epoch owner) = check_names app stream
check_message_names (MediaMessage.stream_stop app stream epoch) = check_names app stream
check_message_names (init_cache c) = check_names c.app c.stream
check_message_names (media_frame f) = check_names f.app f.stream
check_message_names (MediaMessage.hello version node_id) = ok tt
check_message_names (MediaMessage.auth_challenge nonce) = ok tt
check_message_names (MediaMessage.auth node_id response) = ok tt
check_message_names MediaMessage.auth_ok = ok tt
check_message_names MediaMessage.auth_fail = ok tt
check_message_names (MediaMessage.error code message generation) = ok tt
check_message_names (MediaMessage.stats_req stream_id) = ok tt
check_message_names (MediaMessage.stats_resp stream_id body) = ok tt

unfoldable pub frame_len : ℕ → Result ℕ WireError
frame_len len = if ltb max_frame len then err frame_too_large else ok (len % 2 ^ 32)

unfoldable pub part_len : Option Text → ℕ
part_len none = 0
part_len (some p) = 4 + length p

unfoldable pub part_bytes : Option Text → Text
part_bytes none = []
part_bytes (some p) = be32 (length p % 2 ^ 32) ++ p

unfoldable pub presence_bit : ℕ → Option Text → ℕ
presence_bit bit none = 0
presence_bit bit (some p) = bit

-- The payload of `keyframe`, and its time stamp, 0 where it is missing.
unfoldable pub keyframe_part : Option (ℕ × Text) → Option Text
keyframe_part none = none
keyframe_part (some (ts, p)) = some p

unfoldable pub keyframe_ts : Option (ℕ × Text) → ℕ
keyframe_ts none = 0
keyframe_ts (some (ts, p)) = ts

unfoldable pub init_presence : InitCache → ℕ
init_presence c =
    presence_bit 1 c.metadata
    + (presence_bit 2 c.avc_header
        + (presence_bit 4 c.aac_header + presence_bit 8 (keyframe_part c.keyframe)))

unfoldable pub init_len : InitCache → ℕ
init_len c =
    1
    + init_fixed_len
    + length c.app
    + length c.stream
    + part_len c.metadata
    + part_len c.avc_header
    + part_len c.aac_header
    + part_len (keyframe_part c.keyframe)

unfoldable pub init_parts : InitCache → Text
init_parts c =
    part_bytes c.metadata
    ++ (part_bytes c.avc_header
        ++ (part_bytes c.aac_header ++ part_bytes (keyframe_part c.keyframe)))

unfoldable pub write_init_cache : InitCache → ℕ → Text
write_init_cache c body_len =
    be32 body_len
    ++ (kind_init_cache
        ∷ init_presence c
        ∷ (be64 c.epoch
            ++ (be32 (keyframe_ts c.keyframe)
                ++ (length c.app % 256
                    ∷ (be16 (length c.stream % 2 ^ 16) ++ (c.app ++ (c.stream ++ init_parts c)))))))

module _ (to_u8 : DeliveryHint → ℕ) where
  unfoldable pub write_media_frame : MediaFrame → ℕ → Text
  write_media_frame f body_len =
      be32 body_len
      ++ (kind_media_frame
          ∷ to_u8 f.hint
          ∷ f.frame_type
          ∷ 0
          ∷ (be64 f.epoch
              ++ (be32 f.timestamp
                  ++ (be32 f.timeline_ts
                      ++ (length f.app % 256
                          ∷ (be16 (length f.stream % 2 ^ 16)
                              ++ (be32 (length f.payload % 2 ^ 32)
                                  ++ (f.app ++ (f.stream ++ f.payload)))))))))

  module _ (to_vec : MediaMessage → Option Text) where
    unfoldable pub write_control : Option Text → Result Text WireError
    write_control none = err encode_failed
    write_control (some json) =
        if ltb max_control_frame (1 + length json)
        then err control_too_large
        else and_then (frame_len (1 + length json))
            (λ body_len. ok (be32 body_len ++ (kind_control ∷ json)))

    unfoldable pub write_frame_v2 : MediaMessage → Result Text WireError
    write_frame_v2 (media_frame f) = and_then (check_names f.app f.stream) (λ u.
        and_then
          (frame_len (1 + media_fixed_len + length f.app + length f.stream + length f.payload))
          (λ body_len. ok (write_media_frame f body_len)))
    write_frame_v2 (init_cache c) =
        and_then (check_names c.app c.stream)
          (λ u. and_then (frame_len (init_len c)) (λ body_len. ok (write_init_cache c body_len)))
    write_frame_v2 (MediaMessage.hello v n) = write_control (to_vec (MediaMessage.hello v n))
    write_frame_v2 (MediaMessage.auth_challenge n) =
        write_control (to_vec (MediaMessage.auth_challenge n))
    write_frame_v2 (MediaMessage.auth n r) = write_control (to_vec (MediaMessage.auth n r))
    write_frame_v2 MediaMessage.auth_ok = write_control (to_vec MediaMessage.auth_ok)
    write_frame_v2 MediaMessage.auth_fail = write_control (to_vec MediaMessage.auth_fail)
    write_frame_v2 (MediaMessage.subscribe a s e g) =
        write_control (to_vec (MediaMessage.subscribe a s e g))
    write_frame_v2 (MediaMessage.unsubscribe a s) =
        write_control (to_vec (MediaMessage.unsubscribe a s))
    write_frame_v2 (MediaMessage.stream_start a s e o) =
        write_control (to_vec (MediaMessage.stream_start a s e o))
    write_frame_v2 (MediaMessage.stream_stop a s e) =
        write_control (to_vec (MediaMessage.stream_stop a s e))
    write_frame_v2 (MediaMessage.error c m g) = write_control (to_vec (MediaMessage.error c m g))
    write_frame_v2 (MediaMessage.stats_req s) = write_control (to_vec (MediaMessage.stats_req s))
    write_frame_v2 (MediaMessage.stats_resp s b) =
        write_control (to_vec (MediaMessage.stats_resp s b))

    unfoldable pub write_json : Option Text → Result Text WireError
    write_json none = err encode_failed
    write_json (some bytes) =
        if ltb max_frame (length bytes)
        then err frame_too_large
        else ok (be32 (length bytes % 2 ^ 32) ++ bytes)

    unfoldable pub write_frame_v1 : MediaMessage → Result Text WireError
    write_frame_v1 msg = write_json (to_vec msg)

    unfoldable pub write_frame : MediaMessage → ℕ → Result Text WireError
    write_frame msg version = if ltb version 2 then write_frame_v1 msg else write_frame_v2 msg
