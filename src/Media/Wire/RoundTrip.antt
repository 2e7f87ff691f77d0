-- ===== src/Media/Wire/RoundTrip.antt =====
-- src/cluster/media/wire.rs: a media frame that is written is read back, whatever follows it.
use librtmp2_server.Base.{
  ℕ, ◌+◌, ◌-◌, ◌%◌, ◌^◌, ◌≡◌, ◌≤◌, ◌<◌, refl, sym, ap, ◌∙◌, subst, arith, true, not, Option, some,
  ◌∷◌, ◌++◌, append_assoc, Text, length, is_some, if-elim, nat_eqb, ltb,
}
use librtmp2_server.Db.Tables.{ok}
use librtmp2_server.Media.Protocol.{
  DeliveryHint, MediaMessage, MediaFrame, media_frame, frame_type_to_librtmp2,
}
use librtmp2_server.Media.Wire.Bytes.{
  from_be, from_be_on, byte_at, slice, be16, be32, be64, is_utf8,
}
use librtmp2_server.Media.Wire.Write.{
  check_names, frame_len, max_frame, max_app_len, max_stream_len, media_fixed_len,
  write_media_frame, write_frame_v2, write_frame, kind_media_frame,
}
use librtmp2_server.Media.Wire.Read
use librtmp2_server.Media.Wire.Read.{take_exact, Reading, read_exact_budgeted, read_frame}
use librtmp2_server.Media.Wire.Lengths.{
  granted, Reads, vec-Reads, string-Reads, from_be-be32, from_be-be64,
}

-- The length of a frame after its length field.
abbrev pub body_len : MediaFrame → ℕ
body_len f = 1 + media_fixed_len + length f.app + length f.stream + length f.payload

-- A frame of the Rust types whose names and total length are within the limits of the wire, and
-- whose frame type is known.
pub record FrameFits (f : MediaFrame) : Type 0 where
  pub app_utf8 : is_utf8 f.app ≡ true
  pub stream_utf8 : is_utf8 f.stream ≡ true
  pub app_short : length f.app ≤ max_app_len
  pub stream_short : length f.stream ≤ max_stream_len
  pub known_type : is_some (frame_type_to_librtmp2 f.frame_type) ≡ true
  pub epoch_u64 : f.epoch < 2 ^ 64
  pub timestamp_u32 : f.timestamp < 2 ^ 32
  pub timeline_u32 : f.timeline_ts < 2 ^ 32
  pub fits : body_len f ≤ max_frame

module _ (to_u8 : DeliveryHint → ℕ) (from_u8 : ℕ → Option DeliveryHint)
    (hint_codes : (h : DeliveryHint) → from_u8 (to_u8 h) ≡ some h) {B : Type 0} (grow : ℕ → B → B)
    (f : MediaFrame) (fit : FrameFits f) (ys : Text) where
  -- The header that follows the kind byte, and the variable parts.
  abbrev header : Text
  header =
      to_u8 f.hint
      ∷ f.frame_type
      ∷ 0
      ∷ (be64 f.epoch
          ++ (be32 f.timestamp
              ++ (be32 f.timeline_ts
                  ++ (length f.app % 256
                      ∷ (be16 (length f.stream % 2 ^ 16) ++ be32 (length f.payload % 2 ^ 32))))))

  abbrev tail : Text
  tail = f.app ++ (f.stream ++ (f.payload ++ ys))

  abbrev Back : Reading (granted grow) MediaMessage → Type 0
  Back r = Reads grow r (media_frame f) ys

  same_frame :
      media_frame (record {
        app = f.app;
        stream = f.stream;
        epoch = from_be (slice 3 8 header);
        frame_type = byte_at 1 header;
        timestamp = from_be (slice 11 4 header);
        timeline_ts = from_be (slice 15 4 header);
        hint = f.hint;
        payload = f.payload;
      })
      ≡ media_frame f
  same_frame =
      rw
        (
          from_be-be64 f.epoch fit.epoch_u64,
          from_be-be32 f.timestamp fit.timestamp_u32,
          from_be-be32 f.timeline_ts fit.timeline_u32,
        )
        refl

  tail-Back :
      (b : B)
      → Back (
          Read.read_media_tail
            (granted grow)
            from_u8
            header
            (length f.app)
            (length f.stream)
            (length f.payload)
            f.hint
            (tail, b))
  unfolding Read.read_media_tail
  tail-Back b =
      let (b1, e1) = string-Reads grow f.app (f.stream ++ (f.payload ++ ys)) b fit.app_utf8 in
      let (b2, e2) = string-Reads grow f.stream (f.payload ++ ys) b1 fit.stream_utf8 in
      let (b3, e3) = vec-Reads grow f.payload ys b2 in
      (b3, rw (e1, e2, e3) (ap (λ m. ok (m, (ys, b3))) same_frame))

  checked-Back :
      (b : B)
      → Back (
          Read.read_media_checked
            (granted grow)
            from_u8
            header
            (body_len f - 1)
            (length f.app)
            (length f.stream)
            (length f.payload)
            f.hint
            (tail, b))
  unfolding Read.read_media_checked
  checked-Back b =
      if-elim Back (ltb max_stream_len (length f.stream))
        (λ e. absurd (ground (arith, fit.stream_short)))
        (λ e.
          if-elim Back
            (not (
              nat_eqb (media_fixed_len + length f.app + length f.stream + length f.payload)
                (body_len f - 1)))
            (λ e. absurd (ground arith)) (λ e. tail-Back b))

  app_len_read : byte_at 19 header ≡ length f.app
  app_len_read = omega (arith, fit.app_short)

  stream_len_read : from_be (slice 20 2 header) ≡ length f.stream
  unfolding from_be_on
  stream_len_read = omega (arith, fit.stream_short)

  payload_len_read : from_be (slice 22 4 header) ≡ length f.payload
  unfolding from_be_on
  payload_len_read = omega (arith, fit.fits)

  lengths-Back :
      (a t p : ℕ) (b : B)
      → a ≡ length f.app
      → t ≡ length f.stream
      → p ≡ length f.payload
      → Back (
          Read.read_media_checked
            (granted grow)
            from_u8
            header
            (body_len f - 1)
            a
            t
            p
            f.hint
            (tail, b))
  lengths-Back a t p b ea et ep = rw (ea, et, ep) (checked-Back b)

  header-Back :
      (b : B)
      → Back (
          Read.read_media_header
            (granted grow)
            from_u8
            header
            (body_len f - 1)
            (some f.hint)
            (tail, b))
  unfolding Read.read_media_header
  header-Back b =
      if-elim Back (not (is_some (frame_type_to_librtmp2 f.frame_type)))
        (λ e. absurd (ground (arith, fit.known_type)))
        (λ e. lengths-Back _ _ _ b app_len_read stream_len_read payload_len_read)

  media-Back :
      (b : B)
      → Back (Read.read_media_frame_v2 (granted grow) from_u8 (body_len f - 1) (header ++ tail, b))
  unfolding Read.read_media_frame_v2 read_exact_budgeted take_exact
  media-Back b =
      if-elim Back (ltb (body_len f - 1) media_fixed_len) (λ e. absurd (ground arith))
        (λ e. rw (hint_codes f.hint) (header-Back _))

  module _ (from_slice : Text → Option MediaMessage) (max : ℕ) (room : body_len f ≤ max) where
    kind-Back :
        (b : B)
        → Back (
            Read.read_kind
              (granted grow)
              from_u8
              from_slice
              (body_len f)
              kind_media_frame
              (header ++ tail, b))
    unfolding Read.read_kind Read.read_body_v2
    kind-Back b = media-Back b

    body-Back :
        (version : ℕ) (b : B)
        → 2 ≤ version
        → Back (
            Read.read_body
              (granted grow)
              from_u8
              from_slice
              version
              (body_len f)
              (kind_media_frame ∷ (header ++ tail), b))
    unfolding Read.read_body read_exact_budgeted take_exact
    body-Back version b v2 =
        if-elim Back (ltb version 2) (λ e. absurd (ground arith))
          (λ e.
            if-elim Back (nat_eqb (body_len f) 0) (λ e. absurd (ground arith)) (λ e. kind-Back _))

    after_len-Back :
        (start : ℕ → B) (version len : ℕ)
        → 2 ≤ version
        → len ≡ body_len f
        → Back (
            Read.read_after_len
              (granted grow)
              from_u8
              from_slice
              (λ n. some (start n))
              version
              max
              len
              (kind_media_frame ∷ (header ++ tail)))
    unfolding Read.read_after_len
    after_len-Back start version len v2 same =
        if-elim Back (ltb max len) (λ e. absurd (ground arith))
          (λ e. rw same (body-Back version (start (body_len f)) v2))

    written-Back :
        (start : ℕ → B) (version : ℕ)
        → 2 ≤ version
        → Back (
            read_frame
              (granted grow)
              from_u8
              from_slice
              (λ n. some (start n))
              version
              max
              (be32 (body_len f) ++ (kind_media_frame ∷ (header ++ tail))))
    unfolding read_frame take_exact
    written-Back start version v2 =
        after_len-Back start version _ v2 (from_be-be32 (body_len f) (omega (arith, fit.fits)))

  written_bytes :
      write_media_frame to_u8 f (body_len f) ++ ys
      ≡ be32 (body_len f) ++ (kind_media_frame ∷ (header ++ tail))
  unfolding write_media_frame
  written_bytes =
      ap (λ z. be32 (body_len f) ++ (kind_media_frame ∷ (header ++ z)))
        (append_assoc f.app (f.stream ++ f.payload) ys
          ∙ ap (λ z. f.app ++ z) (append_assoc f.stream f.payload ys))

  names_short : check_names f.app f.stream ≡ ok tt
  unfolding check_names
  names_short = ground (arith, fit.app_short, fit.stream_short)

  total_fits : frame_len (body_len f) ≡ ok (body_len f)
  unfolding frame_len
  total_fits =
      if-elim (λ r. r ≡ ok (body_len f)) (ltb max_frame (body_len f))
        (λ e. absurd (ground (arith, fit.fits))) (λ e. ap ok (omega (arith, fit.fits)))

  writes :
      (to_vec : MediaMessage → Option Text)
      → write_frame_v2 to_u8 to_vec (media_frame f) ≡ ok (write_media_frame to_u8 f (body_len f))
  unfolding write_frame_v2
  writes to_vec = rw (names_short, total_fits) refl

  -- Reading what was written.
  bytes-Back :
      (from_slice : Text → Option MediaMessage) (start : ℕ → B) (version max : ℕ)
      → 2 ≤ version
      → body_len f ≤ max
      → Back (
          read_frame
            (granted grow)
            from_u8
            from_slice
            (λ n. some (start n))
            version
            max
            (write_media_frame to_u8 f (body_len f) ++ ys))
  bytes-Back from_slice start version max v2 room =
      subst
        (λ z.
          Back (read_frame (granted grow) from_u8 from_slice (λ n. some (start n)) version max z))
        (sym written_bytes) (written-Back from_slice max room start version v2)

-- Let `from_u8` undo `to_u8`, and let the read budget never be refused. A media frame whose names
-- are UTF-8 and short enough, whose type is known, whose numbers are those of their Rust types and
-- which is not longer than 32 MiB, is written without an error in version 2 or later; and if the
-- reader's limit is not below its length, then reading the written bytes, whatever bytes follow
-- them, gives the same frame and leaves exactly the bytes that follow.
pub media_frame-round_trip :
    (to_u8 : DeliveryHint → ℕ) (from_u8 : ℕ → Option DeliveryHint)
    → ((h : DeliveryHint) → from_u8 (to_u8 h) ≡ some h)
    → {B : Type 0} (grow : ℕ → B → B) (start : ℕ → B)
    → (to_vec : MediaMessage → Option Text) (from_slice : Text → Option MediaMessage)
    → (f : MediaFrame) → FrameFits f
    → (version max : ℕ) (ys : Text) → 2 ≤ version
    → body_len f ≤ max
    → (bytes : Text) × (write_frame to_u8 to_vec (media_frame f) version ≡ ok bytes)
      × Reads grow
          (read_frame
            (granted grow)
            from_u8
            from_slice
            (λ n. some (start n))
            version
            max
            (bytes ++ ys))
          (media_frame f)
          ys
unfolding write_frame
media_frame-round_trip to_u8 from_u8 codes grow start to_vec from_slice f fit version max ys v2
      room =
    (
      write_media_frame to_u8 f (body_len f),
      if-elim (λ r. r ≡ ok (write_media_frame to_u8 f (body_len f))) (ltb version 2)
          (λ e. absurd (ground arith)) (λ e. writes to_u8 from_u8 codes grow f fit ys to_vec),
      bytes-Back to_u8 from_u8 codes grow f fit ys from_slice start version max v2 room,
    )
