-- ===== src/Media/Wire/Read.antt =====
-- src/cluster/media/wire.rs: reading a frame. The source is the bytes still to come, and the state
-- of the read budget, which `reserve_body` may refuse to grow. The time limit on the body is not
-- modelled: a source that ends early, by whatever cause, gives `unexpected_eof`.
use Prim.Native.Nat.{bit_and}
use librtmp2_server.Base.{
  ℕ, zero, suc, ◌+◌, ◌-◌, ◌*◌, min, Bool, true, false, not, ◌&&◌, Option, none, some, [], ◌∷◌, ◌++◌,
  Text, map_or, is_some, if◌then◌else◌, ltb, nat_eqb,
}
use librtmp2_server.Db.Tables.{Result, ok, err}
use librtmp2_server.Media.Protocol.{
  DeliveryHint, MediaMessage, media_frame, init_cache, frame_type_to_librtmp2,
}
use librtmp2_server.Media.Wire.Bytes
use librtmp2_server.Media.Wire.Bytes.{WireError, from_be, byte_at, slice, is_utf8}
use librtmp2_server.Media.Wire.Write.{
  and_then, check_message_names, max_control_frame, max_stream_len, kind_control, kind_media_frame,
  kind_init_cache, media_fixed_len, init_fixed_len,
}

abbrev pub read_budget_chunk : ℕ
read_budget_chunk = 256 * 1024

unfoldable pub is_binary_only : MediaMessage → Bool
is_binary_only (media_frame f) = true
is_binary_only (init_cache c) = true
is_binary_only (MediaMessage.hello v n) = false
is_binary_only (MediaMessage.auth_challenge n) = false
is_binary_only (MediaMessage.auth n r) = false
is_binary_only MediaMessage.auth_ok = false
is_binary_only MediaMessage.auth_fail = false
is_binary_only (MediaMessage.subscribe a s e g) = false
is_binary_only (MediaMessage.unsubscribe a s) = false
is_binary_only (MediaMessage.stream_start a s e o) = false
is_binary_only (MediaMessage.stream_stop a s e) = false
is_binary_only (MediaMessage.error c m g) = false
is_binary_only (MediaMessage.stats_req s) = false
is_binary_only (MediaMessage.stats_resp s b) = false

-- `read_exact`, without the budget.
unfoldable pub take_exact : ℕ → Text → Option (Text × Text)
take_exact zero bs = some ([], bs)
take_exact (suc n) [] = none
take_exact (suc n) (b ∷ bs) = map_or (take_exact n bs) none (λ x. some (b ∷ x.0, x.1))

module _ {B : Type 0} (reserve_body : ℕ → B → Option B) where
  abbrev pub Reading : Type 0 → Type 0
  Reading A = Result (A × (Text × B)) WireError

  unfoldable pub read_exact_budgeted : ℕ → Text × B → Reading Text
  read_exact_budgeted n (bytes, budget) =
      map_or (reserve_body n budget) (err Bytes.budget_exceeded) (λ budget'.
        map_or (take_exact n bytes) (err Bytes.unexpected_eof) (λ x. ok (x.0, (x.1, budget'))))

  -- The loop of `read_vec`: every round reads at least one byte, so `remaining` rounds are enough.
  unfoldable pub read_chunks : ℕ → ℕ → Text → Text × B → Reading Text
  read_chunks zero remaining buf s = ok (buf, s)
  read_chunks (suc fuel) remaining buf s =
      let step = min remaining read_budget_chunk in
      let next =
        and_then (read_exact_budgeted step s)
          (λ x. read_chunks fuel (remaining - step) (buf ++ x.0) x.1) in
      if nat_eqb remaining 0 then ok (buf, s) else next

  unfoldable pub read_vec : ℕ → Text × B → Reading Text
  read_vec len s = read_chunks len len [] s

  unfoldable pub read_string : ℕ → Text × B → Reading Text
  read_string len s =
      and_then (read_vec len s) (λ x. if is_utf8 x.0 then ok x else err Bytes.not_utf8)

  module _ (from_u8 : ℕ → Option DeliveryHint) where
    -- The three variable parts, of the lengths that the header has declared.
    unfoldable pub read_media_tail :
        Text → ℕ → ℕ → ℕ → DeliveryHint → Text × B → Reading MediaMessage
    read_media_tail h app_len stream_len payload_len hint s = and_then (read_string app_len s) (λ a.
        and_then (read_string stream_len a.1) (λ t. and_then (read_vec payload_len t.1) (λ p. ok (
          media_frame (record {
            app = a.0;
            stream = t.0;
            epoch = from_be (slice 3 8 h);
            frame_type = byte_at 1 h;
            timestamp = from_be (slice 11 4 h);
            timeline_ts = from_be (slice 15 4 h);
            hint = hint;
            payload = p.0;
          }),
          p.1,
        ))))

    -- On 64 bits the sum of the three lengths does not overflow.
    unfoldable pub read_media_checked :
        Text → ℕ → ℕ → ℕ → ℕ → DeliveryHint → Text × B → Reading MediaMessage
    read_media_checked h rest app_len stream_len payload_len hint s =
        if ltb max_stream_len stream_len
        then err Bytes.stream_too_long
        else if not (nat_eqb (media_fixed_len + app_len + stream_len + payload_len) rest)
        then err Bytes.length_mismatch
        else read_media_tail h app_len stream_len payload_len hint s

    unfoldable pub read_media_header :
        Text → ℕ → Option DeliveryHint → Text × B → Reading MediaMessage
    read_media_header h rest none s = err Bytes.unknown_hint
    read_media_header h rest (some hint) s =
        if not (is_some (frame_type_to_librtmp2 (byte_at 1 h)))
        then err Bytes.unknown_frame_type
        else if not (nat_eqb (byte_at 2 h) 0)
        then err Bytes.unknown_flags
        else read_media_checked h rest (byte_at 19 h) (from_be (slice 20 2 h))
            (from_be (slice 22 4 h)) hint s

    unfoldable pub read_media_frame_v2 : ℕ → Text × B → Reading MediaMessage
    read_media_frame_v2 rest s =
        if ltb rest media_fixed_len
        then err Bytes.truncated_media
        else and_then (read_exact_budgeted media_fixed_len s)
            (λ x. read_media_header x.0 rest (from_u8 (byte_at 0 x.0)) x.1)

  -- One optional part of an init cache, and the bytes that remain of the frame.
  unfoldable pub read_part_body : ℕ → ℕ → Text × B → Reading (Option Text × ℕ)
  read_part_body len remaining s =
      if ltb remaining len
      then err Bytes.part_exceeds
      else and_then (read_vec len s) (λ x. ok ((some x.0, remaining - len), x.1))

  unfoldable pub read_part : ℕ → ℕ → ℕ → Text × B → Reading (Option Text × ℕ)
  read_part presence bit remaining s =
      if nat_eqb (bit_and presence bit) 0
      then ok ((none, remaining), s)
      else if ltb remaining 4
      then err Bytes.truncated_part
      else and_then (read_exact_budgeted 4 s)
          (λ x. read_part_body (from_be x.0) (remaining - 4) x.1)

  unfoldable pub read_parts : Text → Text → Text → ℕ → ℕ → Text × B → Reading MediaMessage
  read_parts h app stream presence remaining s = and_then (read_part presence 1 remaining s) (λ m.
      and_then (read_part presence 2 m.0.1 m.1) (λ v.
        and_then (read_part presence 4 v.0.1 v.1) (λ a.
          and_then (read_part presence 8 a.0.1 a.1) (λ k.
            if not (nat_eqb k.0.1 0)
            then err Bytes.trailing
            else ok (
              init_cache (record {
                app = app;
                stream = stream;
                epoch = from_be (slice 1 8 h);
                metadata = m.0.0;
                avc_header = v.0.0;
                aac_header = a.0.0;
                keyframe = map_or k.0.0 none (λ p. some (from_be (slice 9 4 h), p));
              }),
              k.1,
            )))))

  unfoldable pub read_init_names : Text → ℕ → ℕ → ℕ → Text × B → Reading MediaMessage
  read_init_names h remaining app_len stream_len s =
      if ltb max_stream_len stream_len
      then err Bytes.stream_too_long
      else if ltb remaining (app_len + stream_len)
      then err Bytes.truncated_names
      else and_then (read_string app_len s) (λ a.
        and_then (read_string stream_len a.1)
          (λ t. read_parts h a.0 t.0 (byte_at 0 h) (remaining - (app_len + stream_len)) t.1))

  unfoldable pub read_init_header : Text → ℕ → Text × B → Reading MediaMessage
  read_init_header h rest s =
      if ltb 0x0F (byte_at 0 h)
      then err Bytes.unknown_parts
      else read_init_names h (rest - init_fixed_len) (byte_at 13 h) (from_be (slice 14 2 h)) s

  unfoldable pub read_init_cache_v2 : ℕ → Text × B → Reading MediaMessage
  read_init_cache_v2 rest s =
      if ltb rest init_fixed_len
      then err Bytes.truncated_init
      else and_then (read_exact_budgeted init_fixed_len s) (λ x. read_init_header x.0 rest x.1)

  module _ (from_u8 : ℕ → Option DeliveryHint) (from_slice : Text → Option MediaMessage) where
    unfoldable pub read_control_v2 : ℕ → Text × B → Reading MediaMessage
    read_control_v2 rest s = and_then (read_vec rest s) (λ x.
        map_or (from_slice x.0) (err Bytes.decode_failed) (λ msg.
          if is_binary_only msg
          then err Bytes.media_as_control
          else and_then (check_message_names msg) (λ u. ok (msg, x.1))))

    unfoldable pub read_body_v2 : ℕ → ℕ → Text × B → Reading MediaMessage
    read_body_v2 kind rest s =
        if nat_eqb kind kind_control
        then read_control_v2 rest s
        else if nat_eqb kind kind_media_frame
        then read_media_frame_v2 from_u8 rest s
        else if nat_eqb kind kind_init_cache
        then read_init_cache_v2 rest s
        else if nat_eqb kind b'{'
        then err Bytes.v1_framing
        else if nat_eqb kind b'"'
        then err Bytes.v1_framing
        else err Bytes.unknown_kind

    unfoldable pub read_json : ℕ → Text × B → Reading MediaMessage
    read_json len s = and_then (read_vec len s) (λ x.
        map_or (from_slice x.0) (err Bytes.decode_failed)
          (λ msg. and_then (check_message_names msg) (λ u. ok (msg, x.1))))

    unfoldable pub read_kind : ℕ → ℕ → Text × B → Reading MediaMessage
    read_kind len kind s =
        if nat_eqb kind kind_control && ltb max_control_frame len
        then err Bytes.control_too_large
        else read_body_v2 kind (len - 1) s

    unfoldable pub read_body : ℕ → ℕ → Text × B → Reading MediaMessage
    read_body version len s =
        if ltb version 2
        then read_json len s
        else if nat_eqb len 0
        then err Bytes.empty_frame
        else and_then (read_exact_budgeted 1 s) (λ x. read_kind len (byte_at 0 x.0) x.1)

    unfoldable pub read_after_len : (ℕ → Option B) → ℕ → ℕ → ℕ → Text → Reading MediaMessage
    read_after_len reserve version max len bytes =
        if ltb max len
        then err Bytes.frame_too_large
        else map_or (reserve len) (err Bytes.budget_exceeded)
            (λ budget. read_body version len (bytes, budget))

    -- `reserve` makes the guard of the frame.
    unfoldable pub read_frame : (ℕ → Option B) → ℕ → ℕ → Text → Reading MediaMessage
    read_frame reserve version max bytes =
        map_or (take_exact 4 bytes) (err Bytes.unexpected_eof)
          (λ x. read_after_len reserve version max (from_be x.0) x.1)
