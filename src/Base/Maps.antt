-- ===== src/Base/Maps.antt =====
-- A hash map as an association list whose keys differ. The order of the list stands for the
-- unspecified iteration order of `HashMap`.
use Prim.Native.Nat.{ℕ}
use mathlib.Core.Path.{◌≡◌, refl}
use mathlib.Core.List.{List, [], ◌∷◌}
use mathlib.Core.Bool.{Bool}
use mathlib.Core.Option.{Option, none, some}
use native.Mathlib.Omega.{arith}
use librtmp2_server.Base.Tests.{Eq, ◌==◌, if◌then◌else◌, map_or}
use librtmp2_server.Base.Lists.{keep}

abbrev pub Map {ℓ κ} : Type ℓ → Type κ → Type (ℓ ⊔ κ)
Map K V = List (K × V)

module _ {ℓ κ} {K : Type ℓ} {V : Type κ} ⦃e : Eq K⦄ where
  unfoldable pub lookup : K → Map K V → Option V
  lookup wanted [] = none
  lookup wanted (x ∷ rest) = if x.0 == wanted then some x.1 else lookup wanted rest

  unfoldable pub insert : K → V → Map K V → Map K V
  insert key new [] = (key, new) ∷ []
  insert key new (x ∷ rest) =
      let kept = x ∷ insert key new rest in if x.0 == key then (key, new) ∷ rest else kept

  unfoldable pub remove : K → Map K V → Map K V
  remove k [] = []
  remove k ((j, w) ∷ m) = let rest = remove k m in if j == k then rest else (j, w) ∷ rest

  abbrev pub Distinct : Map K V → Type κ
  Distinct [] = Unit
  Distinct ((k, v) ∷ m) = (lookup k m ≡ none) × Distinct m

module _ {ℓ κ} {K : Type ℓ} {V : Type κ} ⦃e : Eq K⦄ where
  pub lookup-insert :
      (j k : K) (v : V) (m : Map K V)
      → lookup j (insert k v m) ≡ (if k == j then some v else lookup j m)
  unfolding lookup insert
  lookup-insert j k v [] = refl
  lookup-insert j k v ((i, w) ∷ rest) =
      ground (arith, lookup-insert j k v rest, e.eqb_iff k j, e.eqb_iff i j, e.eqb_iff i k)

  pub lookup-remove :
      (j k : K) (m : Map K V) → lookup j (remove k m) ≡ (if k == j then none else lookup j m)
  unfolding lookup remove
  lookup-remove j k [] = ground arith
  lookup-remove j k ((i, w) ∷ m) =
      ground (arith, e.eqb_iff i k, e.eqb_iff k j, e.eqb_iff i j, lookup-remove j k m)

  pub lookup-keep-none :
      (j : K) (p : K × V → Bool) (m : Map K V) → lookup j m ≡ none → lookup j (keep p m) ≡ none
  unfolding lookup keep
  lookup-keep-none j p [] h = refl
  lookup-keep-none j p ((i, w) ∷ m) h = ground (arith, lookup-keep-none j p m)

  -- `retain` keeps an entry exactly if the test passes on it.
  pub lookup-keep :
      (j : K) (p : K × V → Bool) (m : Map K V)
      → Distinct m
      → lookup j (keep p m) ≡ map_or (lookup j m) none (λ v. if p (j, v) then some v else none)
  unfolding lookup keep
  lookup-keep j p [] d = refl
  lookup-keep j p ((i, w) ∷ m) d =
      ground (arith, e.eqb_iff i j, lookup-keep j p m d.1, lookup-keep-none i p m d.0)

  pub insert-Distinct : (k : K) (v : V) (m : Map K V) → Distinct m → Distinct (insert k v m)
  unfolding insert
  insert-Distinct k v [] d = (unfold lookup in refl, tt)
  insert-Distinct k v ((i, w) ∷ m) d =
      ground (arith, e.eqb_iff i k, e.eqb_iff k i, insert-Distinct k v m d.1, lookup-insert i k v m)

  pub remove-Distinct : (k : K) (m : Map K V) → Distinct m → Distinct (remove k m)
  unfolding remove
  remove-Distinct k [] d = tt
  remove-Distinct k ((i, w) ∷ m) d = ground (arith, remove-Distinct k m d.1, lookup-remove i k m)

  pub keep-Distinct : (p : K × V → Bool) (m : Map K V) → Distinct m → Distinct (keep p m)
  unfolding keep
  keep-Distinct p [] d = tt
  keep-Distinct p ((i, w) ∷ m) d = ground (arith, keep-Distinct p m d.1, lookup-keep-none i p m d.0)

-- What is read of every value, `d` where the key is missing, under a write that does not show.
module _ {ℓ κ} {K : Type ℓ} {V : Type κ} ⦃e : Eq K⦄ (f : V → ℕ) (d : ℕ) (j k : K)
    (m : Map K V) where
  pub view-insert :
      (v : V)
      → f v ≡ map_or (lookup k m) d f
      → map_or (lookup j (insert k v m)) d f ≡ map_or (lookup j m) d f
  view-insert v h = ground (arith, lookup-insert j k v m, e.eqb_iff k j)

  pub view-insert_at :
      (v : V)
      → map_or (lookup j (insert k v m)) d f ≡ (if k == j then f v else map_or (lookup j m) d f)
  view-insert_at v = ground (arith, lookup-insert j k v m, e.eqb_iff k j)

  pub view-remove :
      map_or (lookup k m) d f ≡ d → map_or (lookup j (remove k m)) d f ≡ map_or (lookup j m) d f
  view-remove h = ground (arith, lookup-remove j k m, e.eqb_iff k j)

module _ {ℓ κ} {K : Type ℓ} {V : Type κ} ⦃e : Eq K⦄ (k : K) (v : V) (m : Map K V) where
  pub lookup-head : lookup k ((k, v) ∷ m) ≡ some v
  unfolding lookup
  lookup-head = ground (arith, e.eqb_iff k k)

  pub lookup-tail :
      (j : K) (w : V) → lookup k m ≡ none → lookup j m ≡ some w → lookup j ((k, v) ∷ m) ≡ some w
  unfolding lookup
  lookup-tail j w h found = ground (arith, e.eqb_iff k j)
