-- ===== src/Media/Wire/Bytes.antt =====
-- src/cluster/media/wire.rs: what it uses of the standard library, that is big-endian integers,
-- slices and `String::from_utf8`, and its error values.
use librtmp2_server.Base.{
  ℕ, zero, suc, ◌+◌, ◌*◌, ◌/◌, ◌%◌, ◌^◌, Bool, true, false, ◌&&◌, [], ◌∷◌, ◌++◌, Text, Option, none,
  some, take, drop, if◌then◌else◌, ltb, leb, nat_eqb,
}

-- `to_be_bytes` of `u16`, `u32` and `u64`.
abbrev pub be16 : ℕ → Text
be16 n = (n / 256) % 256 ∷ n % 256 ∷ []

abbrev pub be32 : ℕ → Text
be32 n = (n / 2 ^ 24) % 256 ∷ (n / 2 ^ 16) % 256 ∷ (n / 256) % 256 ∷ n % 256 ∷ []

abbrev pub be64 : ℕ → Text
be64 n = be32 (n / 2 ^ 32) ++ be32 n

-- `from_be_bytes`.
unfoldable pub from_be_on : ℕ → Text → ℕ
from_be_on acc [] = acc
from_be_on acc (b ∷ bs) = from_be_on (acc * 256 + b) bs

abbrev pub from_be : Text → ℕ
from_be bs = from_be_on 0 bs

-- `h[i]` and `h[i..j]` in a header whose length is known.
abbrev pub byte_at : ℕ → Text → ℕ
byte_at i [] = 0
byte_at zero (b ∷ bs) = b
byte_at (suc i) (b ∷ bs) = byte_at i bs

abbrev pub slice : ℕ → ℕ → Text → Text
slice start count bs = take count (drop start bs)

-- The lead byte of a character: how many bytes follow it, and the bounds of the next one.
unfoldable pub lead : ℕ → Option (ℕ × ℕ × ℕ)
lead b =
    if ltb b 0x80
    then some (0, 0x80, 0xBF)
    else if ltb b 0xC2
    then none
    else if ltb b 0xE0
    then some (1, 0x80, 0xBF)
    else if nat_eqb b 0xE0
    then some (2, 0xA0, 0xBF)
    else if nat_eqb b 0xED
    then some (2, 0x80, 0x9F)
    else if ltb b 0xF0
    then some (2, 0x80, 0xBF)
    else if nat_eqb b 0xF0
    then some (3, 0x90, 0xBF)
    else if ltb b 0xF4
    then some (3, 0x80, 0xBF)
    else if nat_eqb b 0xF4
    then some (3, 0x80, 0x8F)
    else none

unfoldable pub utf8_from : Option (ℕ × ℕ × ℕ) → Text → Bool
utf8_from none bs = false
utf8_from (some (zero, lo, hi)) [] = true
utf8_from (some (suc n, lo, hi)) [] = false
utf8_from (some (zero, lo, hi)) (b ∷ bs) = utf8_from (lead b) bs
utf8_from (some (suc n, lo, hi)) (b ∷ bs) =
    let rest = utf8_from (some (n, 0x80, 0xBF)) bs in leb lo b && (leb b hi && rest)

-- `String::from_utf8(bs).is_ok()`
abbrev pub is_utf8 : Text → Bool
is_utf8 bs = utf8_from (some (0, 0x80, 0xBF)) bs

-- The errors of the module, one for each text of a message.
pub data WireError : Type 0 where
  frame_too_large control_too_large name_too_long encode_failed decode_failed : WireError
  unexpected_eof budget_exceeded : WireError
  empty_frame media_as_control v1_framing unknown_kind : WireError
  truncated_media unknown_hint unknown_frame_type unknown_flags : WireError
  stream_too_long length_overflow length_mismatch : WireError
  truncated_init unknown_parts truncated_names truncated_part part_exceeds trailing : WireError
  not_utf8 : WireError
