-- ===== src/RateLimit/Bearer.antt =====
-- When a request counts as authenticated.
use librtmp2_server.Base.{
  ℕ, ◌%◌, ◌≡◌, ◌<◌, ◌↔◌, subst, refl, sym, ap, ◌∙◌, inl, inr, arith, true, false, not, Option, none,
  some, [], ◌∷◌, ◌++◌, Text, length, any_of, map_or, if-elim, nat_eqb_iff, max, padded_diff,
  padded_diff-zero, padded_diff_same, NoZeros, same_of_NoZeros, All, Bool-cases, some_inj,
}
use librtmp2_server.Base.{xor-zero}
use librtmp2_server.RateLimit.Requests.{
  bearer, strip_prefix, ct_str_eq, visible, to_str, is_space, trim_start, before_end, trim_end,
  trim, bearer_authenticated,
}

pub ct_str_eq_iff : (a b : Text) → NoZeros a → NoZeros b → (ct_str_eq a b ≡ true) ↔ (a ≡ b)
unfolding ct_str_eq
ct_str_eq_iff a b za zb = (
  (λ h.
      same_of_NoZeros (max (length a) (length b)) a b za zb (omega arith) (omega arith)
        (padded_diff-zero (max (length a) (length b)) _ a b ((nat_eqb_iff _ 0).0 h)).1),
  λ h. rw (sym h) (
      ground (
        arith,
        (xor-zero (length a) (length a)).1 refl,
        ap (λ (d : ℕ). padded_diff (max (length a) (length a)) (d % 256) a a)
            ((xor-zero (length a) (length a)).1 refl),
        padded_diff_same (max (length a) (length a)) a,
      )),
)

strip_prefix_iff : (p s rest : Text) → (strip_prefix p s ≡ some rest) ↔ (s ≡ p ++ rest)
unfolding strip_prefix
strip_prefix_iff [] s rest = ground arith
strip_prefix_iff (c ∷ p) [] rest = ground arith
strip_prefix_iff (c ∷ p) (d ∷ s) rest = ground (arith, strip_prefix_iff p s rest)

-- Visible characters are not zero, and trimming takes them from the text.
abbrev IsVisible : Text → Type 0
IsVisible s = All (λ c. visible c ≡ true) s

to_str-visible :
    (v s : Text) → to_str v ≡ some s → (v ≡ s) × (any_of (λ c. not (visible c)) s ≡ false)
unfolding to_str
to_str-visible v s h = ground (arith, h)

NoZeros-visible : (s : Text) → any_of (λ c. not (visible c)) s ≡ false → NoZeros s
unfolding any_of visible
NoZeros-visible [] h = tt
NoZeros-visible (c ∷ s) h = (ground (arith, h), NoZeros-visible s (ground (arith, h)))

NoZeros-drop : (p s : Text) → NoZeros (p ++ s) → NoZeros s
NoZeros-drop [] s h = h
NoZeros-drop (c ∷ p) s h = NoZeros-drop p s h.1

NoZeros-start : (s : Text) → NoZeros s → NoZeros (trim_start s)
unfolding trim_start
NoZeros-start [] h = tt
NoZeros-start (c ∷ s) h = if-elim NoZeros (is_space c) (λ e. NoZeros-start s h.1) (λ e. h)

NoZeros-before : (c : ℕ) (s : Text) → 0 < c → NoZeros s → NoZeros (before_end c s)
unfolding before_end
NoZeros-before c [] h k = if-elim NoZeros (is_space c) (λ e. tt) (λ e. (h, tt))
NoZeros-before c (d ∷ s) h k = (h, k)

NoZeros-end : (s : Text) → NoZeros s → NoZeros (trim_end s)
unfolding trim_end
NoZeros-end [] h = tt
NoZeros-end (c ∷ s) h = NoZeros-before c (trim_end s) h.0 (NoZeros-end s h.1)

to_str_shown : (v : Text) → any_of (λ c. not (visible c)) v ≡ false → to_str v ≡ some v
unfolding to_str
to_str_shown v h = rw h refl

-- A header that carries the token.
abbrev pub Carries : Text → Text → Type 0
Carries token hdr =
    (any_of (λ c. not (visible c)) hdr ≡ false)
    × ((tok : Text) × (hdr ≡ bearer ++ tok) × (trim tok ≡ token))

module _ (token : Text) (z : NoZeros token) where
  trim-NoZeros : (tok : Text) → NoZeros (bearer ++ tok) → NoZeros (trim tok)
  unfolding trim
  trim-NoZeros tok h = NoZeros-end _ (NoZeros-start tok (NoZeros-drop bearer tok h))

  Carries-at :
      (hdr : Text) (x : Option Text)
      → any_of (λ c. not (visible c)) hdr ≡ false
      → strip_prefix bearer hdr ≡ x
      → map_or x false (λ tok. ct_str_eq (trim tok) token) ≡ true
      → Carries token hdr
  Carries-at hdr none v e h = absurd (ground arith)
  Carries-at hdr (some tok) v e h =
      let is = (strip_prefix_iff bearer hdr tok).0 e in
      (
        v,
        (
          tok,
          is,
          (ct_str_eq_iff (trim tok) token
                (trim-NoZeros tok (subst NoZeros is (NoZeros-visible hdr v))) z).0
              h,
        ),
      )

  carried :
      (hdr : Text)
      → Carries token hdr
      → map_or (strip_prefix bearer hdr) false (λ tok. ct_str_eq (trim tok) token) ≡ true
  carried hdr (v, (tok, is, t)) =
      ap (λ x. map_or x false (λ tok. ct_str_eq (trim tok) token))
        ((strip_prefix_iff bearer hdr tok).1 is)
      ∙ (ct_str_eq_iff (trim tok) token
            (trim-NoZeros tok (subst NoZeros is (NoZeros-visible hdr v))) z).1
          t

  header_iff :
      (v : Text)
      → (map_or
            (to_str v)
            false
            (λ hdr. map_or (strip_prefix bearer hdr) false (λ tok. ct_str_eq (trim tok) token))
          ≡ true)
        ↔ Carries token v
  unfolding to_str
  header_iff v = elim (Bool-cases (any_of (λ c. not (visible c)) v)) [
    | inl hidden ↦ rw hidden ((λ h. cc), λ h. cc)
    | inr shown ↦ (
      (λ h. Carries-at v (strip_prefix bearer v) shown refl (
          sym (
            ap
              (λ o.
                map_or o false (λ hdr.
                  map_or (strip_prefix bearer hdr) false (λ tok. ct_str_eq (trim tok) token)))
              (to_str_shown v shown))
          ∙ h)),
      λ h. rw shown (carried v h),
    )
  ]

  -- Let the token have no zero byte. A request counts as authenticated exactly if the token is not
  -- empty, and the request has an Authorization header of visible characters that is "Bearer "
  -- and a text which is the token once it is trimmed.
  pub bearer_authenticated_iff :
      (authorization : Option Text)
      → (bearer_authenticated authorization token ≡ true)
        ↔ ((0 < length token) × ((v : Text) × (authorization ≡ some v) × Carries token v))
  unfolding bearer_authenticated
  bearer_authenticated_iff none =
      ((λ h. absurd (ground (arith, h))), λ (l, (v, e, c)). absurd (ground (arith, e)))
  bearer_authenticated_iff (some v) = (
    (λ h. (ground (arith, h), (v, refl, (header_iff v).0 (ground (arith, h))))),
    λ (l, (w, e, c)).
        let same = (header_iff v).1 (subst (Carries token) (sym (some_inj e)) c) in
        ground (arith, l, same),
  )
