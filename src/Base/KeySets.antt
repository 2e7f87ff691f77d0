-- ===== src/Base/KeySets.antt =====
-- How many entries a map can have, from the keys that there are.
use Prim.Native.Nat.{ℕ, suc, ◌≤◌, ◌<◌}
use mathlib.Core.Path.{◌≡◌, ap, subst}
use mathlib.Core.Logic.{inl, inr}
use mathlib.Core.List.{List, [], ◌∷◌}
use mathlib.Core.Bool.{Bool, true, false}
use native.Mathlib.Omega.{arith}
use librtmp2_server.Base.Tests.{Eq, ◌==◌, ==→eq, if◌then◌else◌, is_some, Bool-cases}
use librtmp2_server.Base.Lists.{length, any_of}
use librtmp2_server.Base.Maps.{Map, lookup, insert, Distinct, lookup-insert, insert-Distinct}
use librtmp2_server.Base.Sizes.{length-insert}

module _ {ℓ} {K : Type ℓ} ⦃e : Eq K⦄ where
  abbrev pub one_of : K → List K → Bool
  one_of k ks = any_of (λ x. x == k) ks

  without_key : K → List K → List K
  without_key k [] = []
  without_key k (x ∷ ks) = if x == k then ks else x ∷ without_key k ks

  length-without :
      (k : K) (ks : List K) → one_of k ks ≡ true → suc (length (without_key k ks)) ≡ length ks
  unfolding any_of without_key
  length-without k [] h = absurd (ground arith)
  length-without k (x ∷ ks) h = ground (arith, length-without k ks)

  any-without :
      (j k : K) (ks : List K)
      → (k == j) ≡ false
      → one_of j ks ≡ true
      → one_of j (without_key k ks) ≡ true
  unfolding any_of without_key
  any-without j k [] h t = t
  any-without j k (x ∷ ks) h t =
      ground (arith, any-without j k ks h, e.eqb_iff x k, e.eqb_iff k j, e.eqb_iff x j)

module _ {ℓ κ} {K : Type ℓ} {V : Type κ} ⦃e : Eq K⦄ where
  -- Every key of the map is in the list.
  abbrev pub Among : List K → Map K V → Type ℓ
  Among ks m = (k : K) → is_some (lookup k m) ≡ true → one_of k ks ≡ true

  -- A map with different keys is not longer than the list that its keys are among.
  pub length-Among : (ks : List K) (m : Map K V) → Distinct m → Among ks m → length m ≤ length ks
  unfolding lookup
  length-Among ks [] d a = omega arith
  length-Among ks ((k, v) ∷ m) d a = omega (
    arith,
    length-without k ks (a k (ground (arith, e.eqb_iff k k))),
    length-Among (without_key k ks) m d.1 rest,
  )
    where
      other : (j : K) → is_some (lookup j m) ≡ true → (k == j) ≡ false
      other j there = elim (Bool-cases (k == j)) [
        | inr differs ↦ differs
        | inl same ↦
            let found = ap (λ (x : K). is_some (lookup x m)) (==→eq k j same) in
            absurd (ground (arith, found, there, d.0))
      ]

      rest : Among (without_key k ks) m
      rest j there = any-without j k ks (other j there) (a j (rw (other j there) there))

  pub Among-insert :
      (ks : List K) (k : K) (v : V) (m : Map K V)
      → one_of k ks ≡ true
      → Among ks m
      → Among ks (insert k v m)
  Among-insert ks k v m one among j there = elim (Bool-cases (k == j)) [
    | inl same ↦ subst (λ (x : K). one_of x ks ≡ true) (==→eq k j same) one
    | inr other ↦ among j (ground (arith, lookup-insert j k v m, there, other))
  ]

  -- A key of the list that is not in the map leaves room in it; `v` is any value.
  pub room-Among :
      (ks : List K) (n : ℕ) (k : K) (v : V) (m : Map K V)
      → length ks ≤ n
      → one_of k ks ≡ true
      → Distinct m
      → Among ks m
      → is_some (lookup k m) ≡ false
      → length m < n
  room-Among ks n k v m few one d among absent = ground (
    arith,
    absent,
    length-insert k v m,
    length-Among ks (insert k v m) (insert-Distinct k v m d) (Among-insert ks k v m one among),
    few,
  )
