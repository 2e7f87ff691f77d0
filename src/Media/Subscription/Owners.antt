-- ===== src/Media/Subscription/Owners.antt =====
-- The owner sets of outbound subscriptions, as lists without repetitions.
use librtmp2_server.Base.{
  ◌<◌, ◌≡◌, ◌↔◌, refl, arith, Bool, true, false, not, ◌&&◌, ◌||◌, List, [], ◌∷◌, Text, keep, any_of,
  if◌then◌else◌, nat_eqb, text_eqb, text_eqb_iff, text_eq, nat_eq, pair_eq, length, inl, inr,
  Bool-cases, ap,
}
use librtmp2_server.Media.Subscription.Outbound.{contains, with_owner, without_owner}

pub contains-with :
    (p o : Text) (s : List Text) → contains p (with_owner o s) ≡ (text_eqb o p || contains p s)
unfolding contains with_owner any_of
contains-with p o s = ground (arith, text_eqb_iff o p)

pub contains-without :
    (p o : Text) (s : List Text)
    → contains p (without_owner o s) ≡ (if text_eqb o p then false else contains p s)
unfolding contains without_owner any_of keep
contains-without p o [] = ground arith
contains-without p o (x ∷ s) =
    ground (arith, text_eqb_iff x o, text_eqb_iff x p, text_eqb_iff o p, contains-without p o s)

-- A set that nothing is in has no elements.
pub empty_of : (s : List Text) → ((p : Text) → contains p s ≡ false) → s ≡ []
unfolding contains any_of
empty_of [] h = refl
empty_of (x ∷ s) h = ground (arith, h x, text_eqb_iff x x)

abbrev pub Unique : List Text → Type 0
Unique [] = Unit
Unique (x ∷ xs) = (contains x xs ≡ false) × Unique xs

pub with-Unique : (o : Text) (s : List Text) → Unique s → Unique (with_owner o s)
unfolding with_owner
with-Unique o s h = elim (Bool-cases (contains o s)) [
  | inl there ↦ rw there h
  | inr absent ↦ rw absent (absent, h)
]

pub without-Unique : (o : Text) (s : List Text) → Unique s → Unique (without_owner o s)
unfolding without_owner keep
without-Unique o [] h = tt
without-Unique o (x ∷ s) h = ground (arith, without-Unique o s h.1, contains-without x o s)

-- `o` is in the set, and nothing else.
abbrev pub Sole : Text → (Text → Bool) → Type 0
Sole o s = (s o ≡ true) × ((p : Text) → s p ≡ true → p ≡ o)

pub Sole-without :
    (o : Text) (s : List Text)
    → Sole o (λ p. contains p s) ↔ ((contains o s ≡ true) × (without_owner o s ≡ []))
unfolding contains any_of
Sole-without o s = (
  (λ h. (
    h.0,
    empty_of (without_owner o s)
        (λ p. ground (arith, contains-without p o s, h.1 p, text_eqb_iff o p)),
  )),
  (λ h.
      (h.0, λ p e. ground (arith, contains-without p o s, ap (contains p) h.1, text_eqb_iff o p))),
)

pub Sole-one :
    (o : Text) (s : List Text)
    → Unique s
    → Sole o (λ p. contains p s) ↔ ((nat_eqb (length s) 1 && contains o s) ≡ true)
unfolding contains any_of
Sole-one o [] u = ((λ h. h.0), λ h. cc)
Sole-one o (x ∷ []) u = (
  (λ h. ground (arith, h.0)),
  λ h. (ground arith, λ p e. ground (arith, text_eqb_iff x p, text_eqb_iff x o)),
)
Sole-one o (x ∷ y ∷ s) u = (
  (λ h. ground (arith, h.1 x, h.1 y, text_eqb_iff x x, text_eqb_iff y y, text_eqb_iff y x)),
  λ h. ground arith,
)

-- The new owner is the first one exactly if nobody was there.
pub first_owner :
    (o : Text) (s : List Text)
    → ((not (contains o s) && nat_eqb (length (with_owner o s)) 1) ≡ true)
      ↔ ((p : Text) → contains p s ≡ false)
unfolding contains with_owner any_of
first_owner o [] = ((λ h p. refl), λ h. refl)
first_owner o (x ∷ s) = ((λ h. absurd (ground arith)), λ h. ground (arith, h x, text_eqb_iff x x))

pub length-with : (o : Text) (s : List Text) → 0 < length (with_owner o s)
unfolding contains with_owner any_of
length-with o [] = omega arith
length-with o (x ∷ s) = ground arith

pub member : (s : List Text) → 0 < length s → (p : Text) × (contains p s ≡ true)
unfolding contains any_of
member [] h = absurd (omega arith)
member (x ∷ s) h = (x, ground (arith, text_eqb_iff x x))
