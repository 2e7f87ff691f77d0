-- ===== src/Media/Wire/Parts.antt =====
-- src/cluster/media/wire.rs: the optional parts of an init cache, written and read back.
use Prim.Native.Nat.{bit_and}
use librtmp2_server.Base.{
  ℕ, ◌+◌, ◌-◌, ◌%◌, ◌^◌, ◌≡◌, ◌≤◌, ◌<◌, refl, ap, ◌∙◌, arith, true, false, Option, none, some, ◌++◌,
  Text, length, map_or, if-elim, nat_eqb, ltb,
}
use librtmp2_server.Db.Tables.{ok}
use librtmp2_server.Media.Wire.Write.{
  part_len, part_bytes, presence_bit, keyframe_part, keyframe_ts,
}
use librtmp2_server.Media.Wire.Read.{take_exact, read_exact_budgeted, read_part, read_part_body}
use librtmp2_server.Media.Wire.Lengths.{granted, Reads, vec-Reads, from_be-be32}

-- The bit of a part is set exactly if the part is present.
abbrev pub Bit : ℕ → ℕ → Option Text → Type 0
Bit presence bit p = nat_eqb (bit_and presence bit) 0 ≡ map_or p true (λ q. false)

abbrev pub Bits : Option Text → Option Text → Option Text → Option Text → ℕ → Type 0
Bits m v a k presence =
    Bit presence 1 m × Bit presence 2 v × Bit presence 4 a × Bit presence 8 k × (presence ≤ 15)

pub presence-Bits :
    (m v a k : Option Text)
    → Bits m v a k (presence_bit 1 m + (presence_bit 2 v + (presence_bit 4 a + presence_bit 8 k)))
unfolding presence_bit
presence-Bits none none none none = (refl, refl, refl, refl, omega arith)
presence-Bits none none none (some k) = (refl, refl, refl, refl, omega arith)
presence-Bits none none (some a) none = (refl, refl, refl, refl, omega arith)
presence-Bits none none (some a) (some k) = (refl, refl, refl, refl, omega arith)
presence-Bits none (some v) none none = (refl, refl, refl, refl, omega arith)
presence-Bits none (some v) none (some k) = (refl, refl, refl, refl, omega arith)
presence-Bits none (some v) (some a) none = (refl, refl, refl, refl, omega arith)
presence-Bits none (some v) (some a) (some k) = (refl, refl, refl, refl, omega arith)
presence-Bits (some m) none none none = (refl, refl, refl, refl, omega arith)
presence-Bits (some m) none none (some k) = (refl, refl, refl, refl, omega arith)
presence-Bits (some m) none (some a) none = (refl, refl, refl, refl, omega arith)
presence-Bits (some m) none (some a) (some k) = (refl, refl, refl, refl, omega arith)
presence-Bits (some m) (some v) none none = (refl, refl, refl, refl, omega arith)
presence-Bits (some m) (some v) none (some k) = (refl, refl, refl, refl, omega arith)
presence-Bits (some m) (some v) (some a) none = (refl, refl, refl, refl, omega arith)
presence-Bits (some m) (some v) (some a) (some k) = (refl, refl, refl, refl, omega arith)

-- A key frame is its time stamp and its payload.
pub keyframe_joined :
    (k : Option (ℕ × Text)) (ts : ℕ)
    → ts ≡ keyframe_ts k
    → map_or (keyframe_part k) none (λ p. some (ts, p)) ≡ k
unfolding keyframe_ts keyframe_part
keyframe_joined none ts e = refl
keyframe_joined (some (t, p)) ts e = ap (λ z. some (z, p)) e

module _ {B : Type 0} (grow : ℕ → B → B) where
  part_body-Reads :
      (len rem r : ℕ) (q ys : Text) (b : B)
      → len ≡ length q
      → rem ≡ length q + r
      → Reads grow {A = Option Text × ℕ}
          (read_part_body (granted grow) len rem (q ++ ys, b))
          (some q, r)
          ys
  unfolding read_part_body
  part_body-Reads len rem r q ys b e room =
      if-elim (λ x. Reads grow {A = Option Text × ℕ} x (some q, r) ys) (ltb rem len)
        (λ l. absurd (ground arith))
        (λ l.
          let (b', back) = vec-Reads grow q ys b in
          let left : rem - length q ≡ r = omega arith in (b', rw (e, back, left) refl))

  pub part-Reads :
      (presence bit rem r : ℕ) (p : Option Text) (ys : Text) (b : B)
      → Bit presence bit p
      → rem ≡ part_len p + r
      → part_len p < 2 ^ 32
      → Reads grow {A = Option Text × ℕ}
          (read_part (granted grow) presence bit rem (part_bytes p ++ ys, b))
          (p, r)
          ys
  unfolding read_part part_bytes part_len read_exact_budgeted take_exact
  part-Reads presence bit rem r none ys b set room small =
      if-elim (λ x. Reads grow {A = Option Text × ℕ} x (none, r) ys)
        (nat_eqb (bit_and presence bit) 0)
        (λ e. (b, ap (λ z. ok ((none, z), (ys, b))) (omega arith))) (λ e. absurd (ground arith))
  part-Reads presence bit rem r (some q) ys b set room small =
      if-elim (λ x. Reads grow {A = Option Text × ℕ} x (some q, r) ys)
        (nat_eqb (bit_and presence bit) 0) (λ e. absurd (ground arith))
        (λ e.
          if-elim (λ x. Reads grow {A = Option Text × ℕ} x (some q, r) ys) (ltb rem 4)
            (λ e. absurd (ground arith))
            (λ e.
              part_body-Reads _ _ r q ys _
                (from_be-be32 (length q % 2 ^ 32) (omega arith) ∙ omega arith) (omega arith)))
