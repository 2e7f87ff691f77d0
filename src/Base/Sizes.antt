-- ===== src/Base/Sizes.antt =====
-- How many entries a map has, and what holds of all of them, after a write.
use Prim.Native.Nat.{suc, ◌≤◌, ◌<◌}
use mathlib.Core.Path.{◌≡◌, refl, subst}
use mathlib.Core.Logic.{inl, inr}
use mathlib.Core.List.{[], ◌∷◌}
use mathlib.Core.Bool.{true, false}
use mathlib.Core.Option.{some}
use native.Mathlib.Omega.{arith}
use librtmp2_server.Base.Tests.{Eq, ◌==◌, ==→eq, if◌then◌else◌, if-elim, is_some, Bool-cases}
use librtmp2_server.Base.Lists.{length, All}
use librtmp2_server.Base.Maps.{Map, lookup, insert, remove}

module _ {ℓ κ} {K : Type ℓ} {V : Type κ} ⦃e : Eq K⦄ where
  pub length-insert :
      (k : K) (v : V) (m : Map K V)
      → length (insert k v m) ≡ (if is_some (lookup k m) then length m else suc (length m))
  unfolding lookup insert
  length-insert k v [] = refl
  length-insert k v ((j, w) ∷ m) = ground (arith, length-insert k v m)

  pub length-remove-le : (k : K) (m : Map K V) → length (remove k m) ≤ length m
  unfolding remove
  length-remove-le k [] = omega arith
  length-remove-le k ((j, w) ∷ m) = ground (arith, length-remove-le k m)

  pub length-remove-lt :
      (k : K) (m : Map K V) → is_some (lookup k m) ≡ true → length (remove k m) < length m
  unfolding lookup remove
  length-remove-lt k [] h = absurd (ground arith)
  length-remove-lt k ((j, w) ∷ m) h = ground (arith, length-remove-lt k m, length-remove-le k m)

module _ {ℓ κ μ} {K : Type ℓ} {V : Type κ} ⦃e : Eq K⦄ (P : K × V → Type μ) where
  pub All-insert : (k : K) (v : V) (m : Map K V) → P (k, v) → All P m → All P (insert k v m)
  unfolding insert
  All-insert k v [] p h = (p, tt)
  All-insert k v ((j, w) ∷ m) p h =
      if-elim (All P) (j == k) (λ t. (p, h.1)) (λ t. (h.0, All-insert k v m p h.1))

  pub All-remove : (k : K) (m : Map K V) → All P m → All P (remove k m)
  unfolding remove
  All-remove k [] h = tt
  All-remove k ((j, w) ∷ m) h =
      if-elim (All P) (j == k) (λ t. All-remove k m h.1) (λ t. (h.0, All-remove k m h.1))

  pub All-lookup : (k : K) (v : V) (m : Map K V) → lookup k m ≡ some v → All P m → P (k, v)
  unfolding lookup
  All-lookup k v [] found h = absurd (ground arith)
  All-lookup k v ((j, w) ∷ m) found h = elim (Bool-cases (j == k)) [
    | inl same ↦
        subst (λ (x : K). P (x, v)) (==→eq j k same)
          (subst (λ (x : V). P (j, x)) (head same found) h.0)
    | inr other ↦ All-lookup k v m (tail other found) h.1
  ]
    where
      head : (j == k) ≡ true → (if j == k then some w else lookup k m) ≡ some v → w ≡ v
      head e f = ground arith

      tail :
          (j == k) ≡ false → (if j == k then some w else lookup k m) ≡ some v → lookup k m ≡ some v
      tail e f = ground arith
