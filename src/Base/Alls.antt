-- ===== src/Base/Alls.antt =====
-- `All` under the list operations.
use mathlib.Core.Path.{◌≡◌}
use mathlib.Core.List.{List, [], ◌∷◌, ◌++◌, map}
use mathlib.Core.Bool.{Bool, true, false}
use native.Mathlib.Omega.{arith}
use librtmp2_server.Base.Tests.{if-elim}
use librtmp2_server.Base.Lists.{All, keep, any_of}

module _ {ℓ κ} {A : Type ℓ} (P : A → Type κ) where
  pub All-append : (xs ys : List A) → All P xs → All P ys → All P (xs ++ ys)
  All-append [] ys h k = k
  All-append (x ∷ xs) ys h k = (h.0, All-append xs ys h.1 k)

  pub All-keep : (p : A → Bool) (xs : List A) → All P xs → All P (keep p xs)
  unfolding keep
  All-keep p [] h = tt
  All-keep p (x ∷ xs) h =
      if-elim (All P) (p x) (λ e. (h.0, All-keep p xs h.1)) (λ e. All-keep p xs h.1)

  pub All-map {μ} :
      {B : Type μ} (f : B → A) (Q : B → Type κ) (xs : List B)
      → ((x : B) → Q x → P (f x))
      → All Q xs
      → All P (map f xs)
  All-map f Q [] g h = tt
  All-map f Q (x ∷ xs) g h = (g x h.0, All-map f Q xs g h.1)

  pub All-weaken : (Q : A → Type κ) (xs : List A) → ((x : A) → Q x → P x) → All Q xs → All P xs
  All-weaken Q [] g h = tt
  All-weaken Q (x ∷ xs) g h = (g x h.0, All-weaken Q xs g h.1)

  pub All-intro : ((x : A) → P x) → (xs : List A) → All P xs
  All-intro f [] = tt
  All-intro f (x ∷ xs) = (f x, All-intro f xs)

  -- What a filter keeps has passed its test.
  pub All-keep-passed :
      (Q R : A → Type κ) (p : A → Bool) (xs : List A)
      → ((x : A) → Q x → R x → P x)
      → All Q xs
      → All (λ x. p x ≡ true → R x) xs
      → All P (keep p xs)
  unfolding keep
  All-keep-passed Q R p [] g h k = tt
  All-keep-passed Q R p (x ∷ xs) g h k =
      if-elim (All P) (p x) (λ e. (g x h.0 (k.0 e), All-keep-passed Q R p xs g h.1 k.1))
        (λ e. All-keep-passed Q R p xs g h.1 k.1)

-- No element passes a test that `any` does not find passed.
pub any_of-All {ℓ} :
    {A : Type ℓ} (p : A → Bool) (xs : List A) → any_of p xs ≡ false → All (λ x. p x ≡ false) xs
unfolding any_of
any_of-All p [] h = tt
any_of-All p (x ∷ xs) h = ground (arith, any_of-All p xs)
