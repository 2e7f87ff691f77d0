-- ===== src/Media/Wire/Sync.antt =====
-- src/cluster/media/wire.rs: a reader that accepts a frame stands exactly behind it.
use librtmp2_server.Base.{
  ℕ, suc, ◌+◌, ◌-◌, ◌≡◌, ◌≤◌, arith, not, ◌&&◌, Option, none, some, [], ◌∷◌, Text, length, map_or,
  is_some, if-elim, if◌then◌else◌, subst, nat_eqb, ltb,
}
use Prim.Native.Nat.{bit_and}
use librtmp2_server.Db.Tables.{ok, err}
use librtmp2_server.Media.Protocol.{DeliveryHint, MediaMessage, frame_type_to_librtmp2}
use librtmp2_server.Media.Wire.Bytes
use librtmp2_server.Media.Wire.Bytes.{WireError, from_be, byte_at, slice, is_utf8}
use librtmp2_server.Media.Wire.Write.{
  and_then, check_message_names, max_control_frame, max_stream_len, kind_control, kind_media_frame,
  kind_init_cache, media_fixed_len, init_fixed_len, Checked,
}
use librtmp2_server.Media.Wire.Read
use librtmp2_server.Media.Wire.Read.{take_exact, Reading, read_budget_chunk, read_frame}
use librtmp2_server.Media.Wire.Took.{
  After, Took, and_then-Took, exact-Took, vec-Took, and_then-Checked, string-Took,
}

module _ {B : Type 0} (reserve_body : ℕ → B → Option B) where
  -- The lengths that a media header declares add up to the frame.
  module _ (from_u8 : ℕ → Option DeliveryHint) where
    tail-Took :
        (h : Text) (a t p : ℕ) (hint : DeliveryHint) (s : Text × B)
        → Took reserve_body
            (a + (t + (p + 0)))
            s.0
            (Read.read_media_tail reserve_body from_u8 h a t p hint s)
    unfolding Read.read_media_tail
    tail-Took h a t p hint s =
        and_then-Took reserve_body a (t + (p + 0)) s.0 _ _ (string-Took reserve_body a s) (λ x.
          and_then-Took reserve_body t (p + 0) x.1.0 _ _ (string-Took reserve_body t x.1) (λ y.
            and_then-Took reserve_body p 0 y.1.0 _ _ (vec-Took reserve_body p y.1)
              (λ z. omega arith)))

    checked-Took :
        (h : Text) (rest a t p : ℕ) (hint : DeliveryHint) (s : Text × B)
        → Took reserve_body
            (rest - media_fixed_len)
            s.0
            (Read.read_media_checked reserve_body from_u8 h rest a t p hint s)
    unfolding Read.read_media_checked
    checked-Took h rest a t p hint s =
        if-elim (Took reserve_body (rest - media_fixed_len) s.0) (ltb max_stream_len t) (λ e. tt)
          (λ e.
            if-elim (Took reserve_body (rest - media_fixed_len) s.0)
              (not (nat_eqb (media_fixed_len + a + t + p) rest)) (λ e. tt)
              (λ e.
                subst
                  (λ k.
                    Took reserve_body k s.0
                      (Read.read_media_tail reserve_body from_u8 h a t p hint s))
                  (ground arith) (tail-Took h a t p hint s)))

    header-Took :
        (h : Text) (rest : ℕ) (o : Option DeliveryHint) (s : Text × B)
        → Took reserve_body
            (rest - media_fixed_len)
            s.0
            (Read.read_media_header reserve_body from_u8 h rest o s)
    unfolding Read.read_media_header
    header-Took h rest none s = tt
    header-Took h rest (some hint) s =
        if-elim (Took reserve_body (rest - media_fixed_len) s.0)
          (not (is_some (frame_type_to_librtmp2 (byte_at 1 h)))) (λ e. tt)
          (λ e.
            if-elim (Took reserve_body (rest - media_fixed_len) s.0) (not (nat_eqb (byte_at 2 h) 0))
              (λ e. tt) (λ e. checked-Took h rest _ _ _ hint s))

    media-Took :
        (rest : ℕ) (s : Text × B)
        → Took reserve_body rest s.0 (Read.read_media_frame_v2 reserve_body from_u8 rest s)
    unfolding Read.read_media_frame_v2
    media-Took rest s =
        if-elim (Took reserve_body rest s.0) (ltb rest media_fixed_len) (λ e. tt)
          (λ e.
            subst
              (λ k. Took reserve_body k s.0 (
                and_then (Read.read_exact_budgeted reserve_body media_fixed_len s) (λ x.
                  Read.read_media_header reserve_body from_u8 x.0 rest (from_u8 (byte_at 0 x.0))
                    x.1)))
              (ground arith)
              (and_then-Took reserve_body media_fixed_len (rest - media_fixed_len) s.0 _ _
                (exact-Took reserve_body media_fixed_len s)
                (λ x. header-Took x.0 rest (from_u8 (byte_at 0 x.0)) x.1)))

  -- An optional part counts down the bytes that remain of the frame.
  abbrev PartTook : ℕ → Text → Reading reserve_body (Option Text × ℕ) → Type 0
  PartTook rem bs r = After (λ (a : Option Text × ℕ) rest. length bs + a.1 ≡ rem + length rest) r

  part_then-Took :
      {C : Type 0} (rem : ℕ) (bs : Text) (r : Reading reserve_body (Option Text × ℕ))
      (f : (Option Text × ℕ) × (Text × B) → Reading reserve_body C)
      → PartTook rem bs r
      → ((x : (Option Text × ℕ) × (Text × B)) → Took reserve_body x.0.1 x.1.0 (f x))
      → Took reserve_body rem bs (and_then r f)
  part_then-Took {C = C} rem bs (err e) f h k = tt
  part_then-Took {C = C} rem bs (ok x) f h k = go (f x) (k x)
    where
      go :
          (y : Reading reserve_body C)
          → Took reserve_body x.0.1 x.1.0 y
          → Took reserve_body rem bs y
      go (ok y) l = omega arith
      go (err e) l = tt

  counted :
      (len rem : ℕ) (bs : Text) (r : Reading reserve_body Text)
      → len ≤ rem
      → Took reserve_body len bs r
      → PartTook rem bs (and_then r (λ x. ok ((some x.0, rem - len), x.1)))
  counted len rem bs (ok x) le h = omega arith
  counted len rem bs (err e) le h = tt

  part_body-Took :
      (len rem : ℕ) (s : Text × B) → PartTook rem s.0 (Read.read_part_body reserve_body len rem s)
  unfolding Read.read_part_body
  part_body-Took len rem s =
      if-elim (PartTook rem s.0) (ltb rem len) (λ e. tt)
        (λ e. counted len rem s.0 _ (ground arith) (vec-Took reserve_body len s))

  after_len-Took :
      (rem : ℕ) (bs : Text) (r : Reading reserve_body Text)
      → 4 ≤ rem
      → Took reserve_body 4 bs r
      → PartTook rem bs
          (and_then r (λ x. Read.read_part_body reserve_body (from_be x.0) (rem - 4) x.1))
  after_len-Took rem bs (err e) le h = tt
  after_len-Took rem bs (ok x) le h = go _ (part_body-Took (from_be x.0) (rem - 4) x.1)
    where
      go :
          (y : Reading reserve_body (Option Text × ℕ))
          → PartTook (rem - 4) x.1.0 y
          → PartTook rem bs y
      go (ok y) l = omega arith
      go (err e) l = tt

  part-Took :
      (presence bit rem : ℕ) (s : Text × B)
      → PartTook rem s.0 (Read.read_part reserve_body presence bit rem s)
  unfolding Read.read_part
  part-Took presence bit rem s =
      if-elim (PartTook rem s.0) (nat_eqb (bit_and presence bit) 0) (λ e. omega arith)
        (λ e.
          if-elim (PartTook rem s.0) (ltb rem 4) (λ e. tt)
            (λ e. after_len-Took rem s.0 _ (ground arith) (exact-Took reserve_body 4 s)))

  parts-Took :
      (h app stream : Text) (presence rem : ℕ) (s : Text × B)
      → Took reserve_body rem s.0 (Read.read_parts reserve_body h app stream presence rem s)
  unfolding Read.read_parts
  parts-Took h app stream presence rem s =
      part_then-Took rem s.0 _ _ (part-Took presence 1 rem s) (λ m.
        part_then-Took m.0.1 m.1.0 _ _ (part-Took presence 2 m.0.1 m.1) (λ v.
          part_then-Took v.0.1 v.1.0 _ _ (part-Took presence 4 v.0.1 v.1) (λ a.
            part_then-Took a.0.1 a.1.0 _ _ (part-Took presence 8 a.0.1 a.1) (λ k.
              if-elim (Took reserve_body k.0.1 k.1.0) (not (nat_eqb k.0.1 0)) (λ e. tt)
                (λ e. ground arith)))))

  names-Took :
      (h : Text) (rem a t : ℕ) (s : Text × B)
      → Took reserve_body rem s.0 (Read.read_init_names reserve_body h rem a t s)
  unfolding Read.read_init_names
  names-Took h rem a t s =
      if-elim (Took reserve_body rem s.0) (ltb max_stream_len t) (λ e. tt)
        (λ e.
          if-elim (Took reserve_body rem s.0) (ltb rem (a + t)) (λ e. tt)
            (λ e.
              subst
                (λ k. Took reserve_body k s.0 (
                  and_then (Read.read_string reserve_body a s) (λ x.
                    and_then (Read.read_string reserve_body t x.1) (λ y.
                      Read.read_parts reserve_body h x.0 y.0 (byte_at 0 h) (rem - (a + t)) y.1))))
                (ground arith)
                (and_then-Took reserve_body a (t + (rem - (a + t))) s.0 _ _
                  (string-Took reserve_body a s)
                  (λ x.
                    and_then-Took reserve_body t (rem - (a + t)) x.1.0 _ _
                      (string-Took reserve_body t x.1)
                      (λ y. parts-Took h x.0 y.0 (byte_at 0 h) (rem - (a + t)) y.1)))))

  cache-Took :
      (rest : ℕ) (s : Text × B)
      → Took reserve_body rest s.0 (Read.read_init_cache_v2 reserve_body rest s)
  unfolding Read.read_init_cache_v2 Read.read_init_header
  cache-Took rest s =
      if-elim (Took reserve_body rest s.0) (ltb rest init_fixed_len) (λ e. tt)
        (λ e.
          subst
            (λ k. Took reserve_body k s.0 (
              and_then (Read.read_exact_budgeted reserve_body init_fixed_len s)
                (λ x. Read.read_init_header reserve_body x.0 rest x.1)))
            (ground arith)
            (and_then-Took reserve_body init_fixed_len (rest - init_fixed_len) s.0 _ _
              (exact-Took reserve_body init_fixed_len s)
              (λ x.
                if-elim (Took reserve_body (rest - init_fixed_len) x.1.0) (ltb 15 (byte_at 0 x.0))
                  (λ e. tt) (λ e. names-Took x.0 (rest - init_fixed_len) _ _ x.1))))

  module _ (from_u8 : ℕ → Option DeliveryHint) (from_slice : Text → Option MediaMessage) where
    named-Took :
        (c : Checked) (msg : MediaMessage) (s : Text × B)
        → Took reserve_body {A = MediaMessage} 0 s.0 (and_then c (λ u. ok (msg, s)))
    named-Took (ok u) msg s = omega arith
    named-Took (err e) msg s = tt

    json-Took :
        (len : ℕ) (s : Text × B)
        → Took reserve_body len s.0 (Read.read_json reserve_body from_u8 from_slice len s)
    unfolding Read.read_json
    json-Took len s = and_then-Checked reserve_body len s.0 _ _ (vec-Took reserve_body len s) (λ x.
        elim (from_slice x.0)
          as (λ o. Took reserve_body 0 x.1.0 (
            map_or o (err Bytes.decode_failed)
              (λ msg. and_then (check_message_names msg) (λ u. ok (msg, x.1))))) [
                | none ↦ tt
                | some msg ↦ named-Took (check_message_names msg) msg x.1
              ])

    control-Took :
        (len : ℕ) (s : Text × B)
        → Took reserve_body len s.0 (Read.read_control_v2 reserve_body from_u8 from_slice len s)
    unfolding Read.read_control_v2
    control-Took len s =
        and_then-Checked reserve_body len s.0 _ _ (vec-Took reserve_body len s) (λ x.
          elim (from_slice x.0)
            as (λ o. Took reserve_body 0 x.1.0 (
              map_or o (err Bytes.decode_failed) (λ msg.
                if Read.is_binary_only msg
                then err Bytes.media_as_control
                else and_then (check_message_names msg) (λ u. ok (msg, x.1))))) [
                  | none ↦ tt
                  | some msg ↦
                      if-elim (Took reserve_body 0 x.1.0) (Read.is_binary_only msg) (λ e. tt)
                        (λ e. named-Took (check_message_names msg) msg x.1)
                ])

    body_v2-Took :
        (kind rest : ℕ) (s : Text × B)
        → Took reserve_body rest s.0 (Read.read_body_v2 reserve_body from_u8 from_slice kind rest s)
    unfolding Read.read_body_v2
    body_v2-Took kind rest s =
        if-elim (Took reserve_body rest s.0) (nat_eqb kind kind_control) (λ e. control-Took rest s)
          (λ e.
            if-elim (Took reserve_body rest s.0) (nat_eqb kind kind_media_frame)
              (λ e. media-Took from_u8 rest s)
              (λ e.
                if-elim (Took reserve_body rest s.0) (nat_eqb kind kind_init_cache)
                  (λ e. cache-Took rest s)
                  (λ e.
                    if-elim (Took reserve_body rest s.0) (nat_eqb kind b'{') (λ e. tt)
                      (λ e.
                        if-elim (Took reserve_body rest s.0) (nat_eqb kind b'"') (λ e. tt)
                          (λ e. tt)))))

    body-Took :
        (version len : ℕ) (s : Text × B)
        → Took reserve_body len s.0 (Read.read_body reserve_body from_u8 from_slice version len s)
    unfolding Read.read_body Read.read_kind
    body-Took version len s =
        if-elim (Took reserve_body len s.0) (ltb version 2) (λ e. json-Took len s)
          (λ e.
            if-elim (Took reserve_body len s.0) (nat_eqb len 0) (λ e. tt)
              (λ e.
                subst
                  (λ k. Took reserve_body k s.0 (
                    and_then (Read.read_exact_budgeted reserve_body 1 s) (λ x.
                      Read.read_kind reserve_body from_u8 from_slice len (byte_at 0 x.0) x.1)))
                  (ground arith)
                  (and_then-Took reserve_body 1 (len - 1) s.0 _ _ (exact-Took reserve_body 1 s)
                    (λ x.
                      if-elim (Took reserve_body (len - 1) x.1.0)
                        (nat_eqb (byte_at 0 x.0) kind_control && ltb max_control_frame len)
                        (λ e. tt) (λ e. body_v2-Took (byte_at 0 x.0) (len - 1) x.1)))))

    -- Behind the length field: the frame is within the limit, and exactly its bytes are read.
    abbrev Framed : ℕ → ℕ → Text → Reading reserve_body MediaMessage → Type 0
    Framed max len bs r = After (λ msg rest. (len ≤ max) × (length bs ≡ len + length rest)) r

    within :
        (max len : ℕ) (bs : Text) (r : Reading reserve_body MediaMessage)
        → len ≤ max
        → Took reserve_body len bs r
        → Framed max len bs r
    within max len bs (ok x) le h = (le, h)
    within max len bs (err e) le h = tt

    after_len-Framed :
        (reserve : ℕ → Option B) (version max len : ℕ) (bs : Text)
        → Framed max len bs
            (Read.read_after_len reserve_body from_u8 from_slice reserve version max len bs)
    unfolding Read.read_after_len
    after_len-Framed reserve version max len bs =
        if-elim (Framed max len bs) (ltb max len) (λ e. tt)
          (λ e.
            elim (reserve len)
              as (λ o. Framed max len bs (
                map_or o (err Bytes.budget_exceeded) (λ budget.
                  Read.read_body reserve_body from_u8 from_slice version len (bs, budget)))) [
                    | none ↦ tt
                    | some b ↦ within max len bs _ (ground arith) (body-Took version len (bs, b))
                  ])

-- Whatever bytes a peer sends, in whatever version, under whatever budget and whatever decoders: a
-- frame that is accepted is not longer than the limit says, and the reader has consumed exactly the
-- four bytes of the length field and as many as that field declares. So it stands at the next frame.
pub read_frame-Framed :
    {B : Type 0} (reserve_body : ℕ → B → Option B) (from_u8 : ℕ → Option DeliveryHint)
    (from_slice : Text → Option MediaMessage) (reserve : ℕ → Option B) (version max : ℕ) (bs : Text)
    → After
        (λ msg rest.
          (from_be (slice 0 4 bs) ≤ max) × (length bs ≡ 4 + from_be (slice 0 4 bs) + length rest))
        (read_frame reserve_body from_u8 from_slice reserve version max bs)
unfolding read_frame take_exact
read_frame-Framed reserve_body from_u8 from_slice reserve version max (a ∷ b ∷ c ∷ d ∷ bs) = go _ (
    after_len-Framed reserve_body from_u8 from_slice reserve version max
      (from_be (a ∷ b ∷ c ∷ d ∷ [])) bs)
  where
    go :
        (y : Reading reserve_body MediaMessage)
        → Framed reserve_body from_u8 from_slice max (from_be (a ∷ b ∷ c ∷ d ∷ [])) bs y
        → After
            (λ msg rest.
              (from_be (a ∷ b ∷ c ∷ d ∷ []) ≤ max)
              × (suc (suc (suc (suc (length bs))))
                  ≡ 4 + from_be (a ∷ b ∷ c ∷ d ∷ []) + length rest))
            y
    go (ok y) h = (h.0, omega arith)
    go (err e) h = tt
read_frame-Framed reserve_body from_u8 from_slice reserve version max [] = tt
read_frame-Framed reserve_body from_u8 from_slice reserve version max (a ∷ []) = tt
read_frame-Framed reserve_body from_u8 from_slice reserve version max (a ∷ b ∷ []) = tt
read_frame-Framed reserve_body from_u8 from_slice reserve version max (a ∷ b ∷ c ∷ []) = tt
