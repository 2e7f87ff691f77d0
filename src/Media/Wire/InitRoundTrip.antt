-- ===== src/Media/Wire/InitRoundTrip.antt =====
-- src/cluster/media/wire.rs: an init cache that is written is read back, whatever follows it.
use librtmp2_server.Base.{
  ℕ, ◌+◌, ◌-◌, ◌%◌, ◌^◌, ◌≡◌, ◌≤◌, ◌<◌, refl, sym, ap, ◌∙◌, subst, arith, true, Option, none, some,
  ◌∷◌, ◌++◌, append_assoc, Text, length, map_or, if-elim, nat_eqb, ltb,
}
use librtmp2_server.Db.Tables.{ok}
use librtmp2_server.Media.Protocol.{DeliveryHint, MediaMessage, InitCache, init_cache}
use librtmp2_server.Media.Wire.Bytes.{
  from_be, from_be_on, byte_at, slice, be16, be32, be64, is_utf8,
}
use librtmp2_server.Media.Wire.Write.{
  and_then, check_names, frame_len, max_frame, max_app_len, max_stream_len, init_fixed_len,
  write_init_cache, write_frame_v2, write_frame, kind_init_cache, init_presence, init_len,
  init_parts, part_len, part_bytes, keyframe_part, keyframe_ts,
}
use librtmp2_server.Media.Wire.Read
use librtmp2_server.Media.Wire.Read.{
  take_exact, Reading, read_exact_budgeted, read_frame, read_part, read_part_body,
}
use librtmp2_server.Media.Wire.Parts.{presence-Bits, keyframe_joined, part-Reads}
use librtmp2_server.Media.Wire.Lengths.{granted, Reads, string-Reads, from_be-be32, from_be-be64}

-- An init cache of the Rust types whose names and total length are within the limits of the wire.
pub record CacheFits (c : InitCache) : Type 0 where
  pub app_utf8 : is_utf8 c.app ≡ true
  pub stream_utf8 : is_utf8 c.stream ≡ true
  pub app_short : length c.app ≤ max_app_len
  pub stream_short : length c.stream ≤ max_stream_len
  pub epoch_u64 : c.epoch < 2 ^ 64
  pub keyframe_u32 : keyframe_ts c.keyframe < 2 ^ 32
  pub fits : init_len c ≤ max_frame

module _ {B : Type 0} (grow : ℕ → B → B) (c : InitCache) (fit : CacheFits c) (ys : Text) where
  abbrev key : Option Text
  key = keyframe_part c.keyframe

  abbrev header : Text
  header =
      init_presence c
      ∷ (be64 c.epoch
          ++ (be32 (keyframe_ts c.keyframe)
              ++ (length c.app % 256 ∷ be16 (length c.stream % 2 ^ 16))))

  abbrev parts : Text
  parts =
      part_bytes c.metadata
      ++ (part_bytes c.avc_header ++ (part_bytes c.aac_header ++ (part_bytes key ++ ys)))

  abbrev tail : Text
  tail = c.app ++ (c.stream ++ parts)

  abbrev Back : Reading (granted grow) MediaMessage → Type 0
  Back r = Reads grow r (init_cache c) ys

  abbrev lengths : ℕ
  lengths =
      part_len c.metadata + (part_len c.avc_header + (part_len c.aac_header + (part_len key + 0)))

  same_cache :
      init_cache (record {
        app = c.app;
        stream = c.stream;
        epoch = from_be (slice 1 8 header);
        metadata = c.metadata;
        avc_header = c.avc_header;
        aac_header = c.aac_header;
        keyframe = map_or key none (λ p. some (from_be (slice 9 4 header), p));
      })
      ≡ init_cache c
  same_cache =
      rw
        (
          from_be-be64 c.epoch fit.epoch_u64,
          keyframe_joined c.keyframe _ (from_be-be32 (keyframe_ts c.keyframe) fit.keyframe_u32),
        )
        refl

  parts_short :
      (part_len c.metadata < 2 ^ 32)
      × (part_len c.avc_header < 2 ^ 32)
      × (part_len c.aac_header < 2 ^ 32)
      × (part_len key < 2 ^ 32)
  unfolding init_len
  parts_short =
      let fits : init_len c ≤ max_frame = fit.fits in
      (omega arith, omega arith, omega arith, omega arith)

  parts-Back :
      (rem : ℕ) (b : B)
      → rem ≡ lengths
      → Back (Read.read_parts (granted grow) header c.app c.stream (init_presence c) rem (parts, b))
  unfolding Read.read_parts init_presence
  parts-Back rem b e =
      let (s1, s2, s4, s8, le) = presence-Bits c.metadata c.avc_header c.aac_header key in
      let (h1, h2, h3, h4) = parts_short in
      let n3 = part_len key + 0 in
      let n2 = part_len c.aac_header + n3 in
      let n1 = part_len c.avc_header + n2 in
      let (b1, e1) =
        part-Reads grow (init_presence c) 1 rem n1 c.metadata
          (part_bytes c.avc_header ++ (part_bytes c.aac_header ++ (part_bytes key ++ ys))) b s1 e
          h1 in
      let (b2, e2) =
        part-Reads grow (init_presence c) 2 n1 n2 c.avc_header
          (part_bytes c.aac_header ++ (part_bytes key ++ ys)) b1 s2 refl h2 in
      let (b3, e3) =
        part-Reads grow (init_presence c) 4 n2 n3 c.aac_header (part_bytes key ++ ys) b2 s4 refl
          h3 in
      let (b4, e4) = part-Reads grow (init_presence c) 8 n3 0 key ys b3 s8 refl h4 in
      (b4, rw (e1, e2, e3, e4) (ap (λ m. ok (m, (ys, b4))) same_cache))

  -- The names have been read, and the parts follow.
  named-Back :
      (a t rem : ℕ) (b b1 b2 : B)
      → a ≡ length c.app
      → t ≡ length c.stream
      → Read.read_string (granted grow) (length c.app) (tail, b)
        ≡ ok (c.app, (c.stream ++ parts, b1))
      → Read.read_string (granted grow) (length c.stream) (c.stream ++ parts, b1)
        ≡ ok (c.stream, (parts, b2))
      → Back (
          Read.read_parts
            (granted grow)
            header
            c.app
            c.stream
            (init_presence c)
            (rem - (length c.app + length c.stream))
            (parts, b2))
      → Back (
          and_then (Read.read_string (granted grow) a (tail, b)) (λ x.
            and_then (Read.read_string (granted grow) t x.1) (λ y.
              Read.read_parts
                (granted grow)
                header
                x.0
                y.0
                (byte_at 0 header)
                (rem - (a + t))
                y.1)))
  named-Back a t rem b b1 b2 ea et e1 e2 (b3, e3) = (b3, rw (ea, et, e1, e2) e3)

  names-Back :
      (a t rem : ℕ) (b : B)
      → a ≡ length c.app
      → t ≡ length c.stream
      → rem ≡ length c.app + length c.stream + lengths
      → Back (Read.read_init_names (granted grow) header rem a t (tail, b))
  unfolding Read.read_init_names
  names-Back a t rem b ea et er =
      if-elim Back (ltb max_stream_len t) (λ l. absurd (ground (arith, fit.stream_short)))
        (λ l.
          if-elim Back (ltb rem (a + t)) (λ l. absurd (ground arith))
            (λ l.
              let (b1, e1) = string-Reads grow c.app (c.stream ++ parts) b fit.app_utf8 in
              let (b2, e2) = string-Reads grow c.stream parts b1 fit.stream_utf8 in
              named-Back a t rem b b1 b2 ea et e1 e2
                (parts-Back (rem - (length c.app + length c.stream)) b2 (omega arith))))

  abbrev total : ℕ
  total = init_len c

  total_parts : total - 1 ≡ init_fixed_len + (length c.app + length c.stream + lengths)
  unfolding init_len
  total_parts = omega arith

  app_len_read : byte_at 13 header ≡ length c.app
  app_len_read = omega (arith, fit.app_short)

  stream_len_read : from_be (slice 14 2 header) ≡ length c.stream
  unfolding from_be_on
  stream_len_read = omega (arith, fit.stream_short)

  presence_small : init_presence c ≤ 15
  unfolding init_presence
  presence_small = (presence-Bits c.metadata c.avc_header c.aac_header key).4

  header-Back : (b : B) → Back (Read.read_init_header (granted grow) header (total - 1) (tail, b))
  unfolding Read.read_init_header
  header-Back b =
      if-elim Back (ltb 15 (init_presence c)) (λ e. absurd (ground (arith, presence_small)))
        (λ e. names-Back _ _ _ b app_len_read stream_len_read (omega (arith, total_parts)))

  cache-Back :
      (b : B) → Back (Read.read_init_cache_v2 (granted grow) (total - 1) (header ++ tail, b))
  unfolding Read.read_init_cache_v2 read_exact_budgeted take_exact
  cache-Back b =
      if-elim Back (ltb (total - 1) init_fixed_len) (λ e. absurd (ground (arith, total_parts)))
        (λ e. header-Back _)

  module _ (from_u8 : ℕ → Option DeliveryHint) (from_slice : Text → Option MediaMessage) (max : ℕ)
      (room : total ≤ max) where
    body-Back :
        (version : ℕ) (b : B)
        → 2 ≤ version
        → Back (
            Read.read_body
              (granted grow)
              from_u8
              from_slice
              version
              total
              (kind_init_cache ∷ (header ++ tail), b))
    unfolding Read.read_body read_exact_budgeted take_exact Read.read_kind Read.read_body_v2
    body-Back version b v2 =
        if-elim Back (ltb version 2) (λ e. absurd (ground arith))
          (λ e.
            if-elim Back (nat_eqb total 0) (λ e. absurd (ground (arith, total_parts)))
              (λ e. cache-Back _))

    after_len-Back :
        (start : ℕ → B) (version len : ℕ)
        → 2 ≤ version
        → len ≡ total
        → Back (
            Read.read_after_len
              (granted grow)
              from_u8
              from_slice
              (λ n. some (start n))
              version
              max
              len
              (kind_init_cache ∷ (header ++ tail)))
    unfolding Read.read_after_len
    after_len-Back start version len v2 same =
        if-elim Back (ltb max len) (λ e. absurd (ground arith))
          (λ e. rw same (body-Back version (start total) v2))

    written-Back :
        (start : ℕ → B) (version : ℕ)
        → 2 ≤ version
        → Back (
            read_frame
              (granted grow)
              from_u8
              from_slice
              (λ n. some (start n))
              version
              max
              (be32 total ++ (kind_init_cache ∷ (header ++ tail))))
    unfolding read_frame take_exact
    written-Back start version v2 =
        after_len-Back start version _ v2 (from_be-be32 total (omega (arith, fit.fits)))

  written_bytes :
      write_init_cache c total ++ ys ≡ be32 total ++ (kind_init_cache ∷ (header ++ tail))
  unfolding write_init_cache init_parts
  written_bytes =
      ap (λ z. be32 total ++ (kind_init_cache ∷ (header ++ z)))
        (append_assoc c.app _ ys
          ∙ ap (λ z. c.app ++ z)
              (append_assoc c.stream _ ys
                ∙ ap (λ z. c.stream ++ z)
                    (append_assoc (part_bytes c.metadata) _ ys
                      ∙ ap (λ z. part_bytes c.metadata ++ z)
                          (append_assoc (part_bytes c.avc_header) _ ys
                            ∙ ap (λ z. part_bytes c.avc_header ++ z)
                                (append_assoc (part_bytes c.aac_header) (part_bytes key) ys)))))

  names_short : check_names c.app c.stream ≡ ok tt
  unfolding check_names
  names_short = ground (arith, fit.app_short, fit.stream_short)

  total_fits : frame_len total ≡ ok total
  unfolding frame_len
  total_fits =
      if-elim (λ r. r ≡ ok total) (ltb max_frame total) (λ e. absurd (ground (arith, fit.fits)))
        (λ e. ap ok (omega (arith, fit.fits)))

  writes :
      (to_u8 : DeliveryHint → ℕ) (to_vec : MediaMessage → Option Text)
      → write_frame_v2 to_u8 to_vec (init_cache c) ≡ ok (write_init_cache c total)
  unfolding write_frame_v2
  writes to_u8 to_vec = rw (names_short, total_fits) refl

  bytes-Back :
      (from_u8 : ℕ → Option DeliveryHint) (from_slice : Text → Option MediaMessage) (start : ℕ → B)
      (version max : ℕ)
      → 2 ≤ version
      → total ≤ max
      → Back (
          read_frame
            (granted grow)
            from_u8
            from_slice
            (λ n. some (start n))
            version
            max
            (write_init_cache c total ++ ys))
  bytes-Back from_u8 from_slice start version max v2 room =
      subst
        (λ z.
          Back (read_frame (granted grow) from_u8 from_slice (λ n. some (start n)) version max z))
        (sym written_bytes) (written-Back from_u8 from_slice max room start version v2)

-- Let the read budget never be refused. An init cache whose names are UTF-8 and short enough, whose
-- numbers are those of their Rust types and which is not longer than 32 MiB, is written without an
-- error in version 2 or later, whichever of its four parts are there; and if the reader's limit is
-- not below its length, then reading the written bytes, whatever bytes follow them, gives the same
-- cache and leaves exactly the bytes that follow.
pub init_cache-round_trip :
    (to_u8 : DeliveryHint → ℕ) (from_u8 : ℕ → Option DeliveryHint)
    → {B : Type 0} (grow : ℕ → B → B) (start : ℕ → B)
    → (to_vec : MediaMessage → Option Text) (from_slice : Text → Option MediaMessage)
    → (c : InitCache) → CacheFits c
    → (version max : ℕ) (ys : Text) → 2 ≤ version
    → init_len c ≤ max
    → (bytes : Text) × (write_frame to_u8 to_vec (init_cache c) version ≡ ok bytes)
      × Reads grow
          (read_frame
            (granted grow)
            from_u8
            from_slice
            (λ n. some (start n))
            version
            max
            (bytes ++ ys))
          (init_cache c)
          ys
unfolding write_frame
init_cache-round_trip to_u8 from_u8 grow start to_vec from_slice c fit version max ys v2 room = (
  write_init_cache c (init_len c),
  if-elim (λ r. r ≡ ok (write_init_cache c (init_len c))) (ltb version 2)
      (λ e. absurd (ground arith)) (λ e. writes grow c fit ys to_u8 to_vec),
  bytes-Back grow c fit ys from_u8 from_slice start version max v2 room,
)
