-- ===== src/Base/Bits.antt =====
-- When `|` and `^` give zero, and the bytes that a comparison in constant time goes through.
use Prim.Native.Nat.{
  ℕ, zero, suc, ◌/◌, ◌%◌, ◌≤◌, ◌<◌, max, digits, differ, bit_or, bit_xor, bit_or-bitwise,
  bit_xor-bitwise,
}
use mathlib.Core.Path.{◌≡◌, refl, sym, ap₂}
use mathlib.Core.Logic.{◌↔◌}
use mathlib.Core.List.{[], ◌∷◌}
use native.Mathlib.Omega.{arith}
use librtmp2_server.Base.Lists.{length, All}
use librtmp2_server.Base.Texts.{Text}

differ-zero : (a b : ℕ) → differ a b ≡ 0 → a ≡ b
differ-zero zero b h = omega (arith, h)
differ-zero (suc a) zero h = h
differ-zero (suc a) (suc b) h = omega (arith, differ-zero a b h)

differ_same : (a : ℕ) → differ a a ≡ 0
differ_same zero = refl
differ_same (suc a) = differ_same a

xor_digits-zero : (n a b : ℕ) → a ≤ n → digits (λ b. b) differ n a b ≡ 0 → a ≡ b
xor_digits-zero zero a b h e = omega (arith, h, e)
xor_digits-zero (suc n) zero b h e = omega (arith, e)
xor_digits-zero (suc n) (suc a) b h e = omega (
  arith,
  xor_digits-zero n (suc a / 2) (b / 2) (omega (arith, h)) (omega (arith, e)),
  differ-zero (suc a % 2) (b % 2) (omega (arith, e)),
)

xor_digits_same : (n a : ℕ) → a ≤ n → digits (λ b. b) differ n a a ≡ 0
xor_digits_same zero a h = omega (arith, h)
xor_digits_same (suc n) zero h = refl
xor_digits_same (suc n) (suc a) h =
    omega (arith, xor_digits_same n (suc a / 2) (omega (arith, h)), differ_same (suc a % 2))

or_digits-zero : (n a b : ℕ) → a ≤ n → digits (λ b. b) max n a b ≡ 0 → (a ≡ 0) × (b ≡ 0)
or_digits-zero zero a b h e = omega (arith, h, e)
or_digits-zero (suc n) zero b h e = omega (arith, e)
or_digits-zero (suc n) (suc a) b h e =
    omega (arith, or_digits-zero n (suc a / 2) (b / 2) (omega (arith, h)) (omega (arith, e)), e)

-- `a ^ b == 0` says that the two are equal.
pub xor-zero : (a b : ℕ) → (bit_xor a b ≡ 0) ↔ (a ≡ b)
xor-zero a b = (
  (λ h. xor_digits-zero a a b (omega arith) (omega (arith, h, bit_xor-bitwise a b))),
  λ h. rw (sym h) (omega (arith, bit_xor-bitwise a a, xor_digits_same a a (omega arith))),
)

-- `a | b == 0` says that both are zero.
pub or-zero : (a b : ℕ) → (bit_or a b ≡ 0) ↔ ((a ≡ 0) × (b ≡ 0))
or-zero a b = (
  (λ h. or_digits-zero a a b (omega arith) (omega (arith, h, bit_or-bitwise a b))),
  λ h. rw (h.0, h.1) (omega (arith, bit_or-bitwise 0 0)),
)

-- `get(i).copied().unwrap_or(0)` at the front of what is left.
unfoldable pub byte_or_zero : Text → ℕ
byte_or_zero [] = 0
byte_or_zero (c ∷ s) = c

unfoldable pub rest_of : Text → Text
rest_of [] = []
rest_of (c ∷ s) = s

-- The loop over the longer one of two strings, which does not stop at a difference.
unfoldable pub padded_diff : ℕ → ℕ → Text → Text → ℕ
padded_diff zero diff a b = diff
padded_diff (suc n) diff a b =
    padded_diff n (bit_or diff (bit_xor (byte_or_zero a) (byte_or_zero b))) (rest_of a) (rest_of b)

abbrev pub SamePadded : ℕ → Text → Text → Type 0
SamePadded zero a b = Unit
SamePadded (suc n) a b = (byte_or_zero a ≡ byte_or_zero b) × SamePadded n (rest_of a) (rest_of b)

pub padded_diff-zero : (n d : ℕ) (a b : Text) → padded_diff n d a b ≡ 0 → (d ≡ 0) × SamePadded n a b
unfolding padded_diff
padded_diff-zero zero d a b h = (h, tt)
padded_diff-zero (suc n) d a b h =
    let (both, later) = padded_diff-zero n _ (rest_of a) (rest_of b) h in
    let (old, new) = (or-zero d _).0 both in
    (old, ((xor-zero (byte_or_zero a) (byte_or_zero b)).0 new, later))

pub padded_diff_same : (n : ℕ) (a : Text) → padded_diff n 0 a a ≡ 0
unfolding padded_diff
padded_diff_same zero a = refl
padded_diff_same (suc n) a =
    rw
      ((or-zero 0 (bit_xor (byte_or_zero a) (byte_or_zero a))).1
        (refl, (xor-zero (byte_or_zero a) (byte_or_zero a)).1 refl))
      (padded_diff_same n (rest_of a))

pub same_of_lengths :
    (n : ℕ) (a b : Text) → length a ≡ length b → length a ≤ n → SamePadded n a b → a ≡ b
unfolding byte_or_zero rest_of
same_of_lengths n [] [] e h same = refl
same_of_lengths n [] (c ∷ b) e h same = absurd (omega (arith, e))
same_of_lengths n (c ∷ a) [] e h same = absurd (omega (arith, e))
same_of_lengths zero (c ∷ a) (d ∷ b) e h same = absurd (omega (arith, h))
same_of_lengths (suc n) (c ∷ a) (d ∷ b) e h same =
    ap₂ ◌∷◌ same.0 (same_of_lengths n a b (omega (arith, e)) (omega (arith, h)) same.1)

-- Without a zero byte the padding cannot pass for a byte of the string.
abbrev pub NoZeros : Text → Type 0
NoZeros s = All (λ c. 0 < c) s

pub same_of_NoZeros :
    (n : ℕ) (a b : Text)
    → NoZeros a
    → NoZeros b
    → length a ≤ n
    → length b ≤ n
    → SamePadded n a b
    → a ≡ b
unfolding byte_or_zero rest_of
same_of_NoZeros n [] [] za zb h k same = refl
same_of_NoZeros zero [] (c ∷ b) za zb h k same = absurd (omega (arith, k))
same_of_NoZeros (suc n) [] (c ∷ b) za zb h k same = absurd (omega (arith, same.0, zb.0))
same_of_NoZeros zero (c ∷ a) b za zb h k same = absurd (omega (arith, h))
same_of_NoZeros (suc n) (c ∷ a) [] za zb h k same = absurd (omega (arith, same.0, za.0))
same_of_NoZeros (suc n) (c ∷ a) (d ∷ b) za zb h k same =
    ap₂ ◌∷◌ same.0 (same_of_NoZeros n a b za.1 zb.1 (omega (arith, h)) (omega (arith, k)) same.1)
