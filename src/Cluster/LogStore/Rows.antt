-- ===== src/Cluster/LogStore/Rows.antt =====
-- The rows of the log by their index, in order.
use librtmp2_server.Base.{
  ℕ, suc, ◌≡◌, ◌<◌, ◌≤◌, refl, ap, inl, inr, arith, Bool, none, some, [], ◌∷◌, Text, lookup, keep,
  map_or, if◌then◌else◌, if-elim, ltb, nat_eqb, nat_eqb_iff, nat_eq, All, All-keep, All-weaken,
  Bool-cases,
}
use librtmp2_server.Cluster.LogStore.Store.{Rows, upsert_row, in_range}

-- Every index is below the ones behind it.
abbrev pub Sorted : Rows → Type 0
Sorted [] = Unit
Sorted (row ∷ rows) = All (λ x. row.0 < x.0) rows × Sorted rows

pub lookup-upsert :
    (j k : ℕ) (v : Text) (rows : Rows)
    → lookup j (upsert_row k v rows) ≡ (if nat_eqb k j then some v else lookup j rows)
unfolding lookup upsert_row
lookup-upsert j k v [] = refl
lookup-upsert j k v (row ∷ rows) = ground (arith, lookup-upsert j k v rows)

upsert-All :
    (n k : ℕ) (v : Text) (rows : Rows)
    → n < k
    → All (λ x. n < x.0) rows
    → All (λ x. n < x.0) (upsert_row k v rows)
unfolding upsert_row
upsert-All n k v [] h a = (h, tt)
upsert-All n k v (row ∷ rows) h a =
    if-elim (All (λ x. n < x.0)) (ltb k row.0) (λ e. (h, a))
      (λ e.
        if-elim (All (λ x. n < x.0)) (nat_eqb k row.0) (λ f. (h, a.1))
          (λ f. (a.0, upsert-All n k v rows h a.1)))

pub upsert-Sorted : (k : ℕ) (v : Text) (rows : Rows) → Sorted rows → Sorted (upsert_row k v rows)
unfolding upsert_row
upsert-Sorted k v [] s = (tt, tt)
upsert-Sorted k v (row ∷ rows) s =
    if-elim Sorted (ltb k row.0)
      (λ e. (
        (
          ground (arith, e),
          All-weaken (λ x. k < x.0) (λ x. row.0 < x.0) rows (λ x h. ground (arith, e, h)) s.0,
        ),
        s,
      ))
      (λ e.
        if-elim Sorted (nat_eqb k row.0)
          (λ f. (
            All-weaken (λ x. k < x.0) (λ x. row.0 < x.0) rows (λ x h. ground (arith, f, h)) s.0,
            s.1,
          ))
          (λ f. (upsert-All row.0 k v rows (ground (arith, e, f)) s.0, upsert-Sorted k v rows s.1)))

pub keep-Sorted : (p : ℕ × Text → Bool) (rows : Rows) → Sorted rows → Sorted (keep p rows)
unfolding keep
keep-Sorted p [] s = tt
keep-Sorted p (row ∷ rows) s =
    if-elim Sorted (p row) (λ e. (All-keep (λ x. row.0 < x.0) p rows s.0, keep-Sorted p rows s.1))
      (λ e. keep-Sorted p rows s.1)

-- A DELETE by index.
pub lookup-delete :
    (j : ℕ) (q : ℕ → Bool) (rows : Rows)
    → lookup j (keep (λ (x : ℕ × Text). q x.0) rows) ≡ (if q j then lookup j rows else none)
unfolding lookup keep
lookup-delete j q [] = ground arith
lookup-delete j q (row ∷ rows) = elim (Bool-cases (nat_eqb row.0 j)) [
  | inl same ↦ ground (arith, same, ap q ((nat_eqb_iff row.0 j).0 same), lookup-delete j q rows)
  | inr other ↦ ground (arith, other, lookup-delete j q rows)
]

below-none : (a b : ℕ) (rows : Rows) → All (λ x. b < x.0) rows → a ≤ b → lookup a rows ≡ none
unfolding lookup
below-none a b [] h le = refl
below-none a b (row ∷ rows) h le = ground (arith, below-none a b rows h.1 le)

range_above :
    (a b : ℕ) (rows : Rows)
    → All (λ x. a < x.0) rows
    → keep (in_range a b) rows ≡ keep (in_range (suc a) b) rows
unfolding keep in_range
range_above a b [] h = refl
range_above a b (row ∷ rows) h = ground (arith, h.0, range_above a b rows h.1)

-- The rows that a query over a range gives, one index after the other.
pub range_step :
    (a b : ℕ) (rows : Rows)
    → Sorted rows
    → a < b
    → keep (in_range a b) rows ≡ (
        map_or
          (lookup a rows)
          (keep (in_range (suc a) b) rows)
          (λ v. (a, v) ∷ keep (in_range (suc a) b) rows))
unfolding lookup keep in_range
range_step a b [] s lt = refl
range_step a b ((k, v) ∷ rows) s lt = elim (Bool-cases (nat_eqb k a)) [
  | inl same ↦
      let above =
        range_above a b rows
          (All-weaken (λ x. a < x.0) (λ x. k < x.0) rows (λ x h. ground (arith, same, h)) s.0) in
      ground (arith, same, lt, above)
  | inr other ↦ elim (Bool-cases (ltb k a)) [
    | inl below ↦ ground (arith, below, range_step a b rows s.1 lt)
    | inr above ↦
        let nothing = below-none a k rows s.0 (ground (arith, above)) in
        let same =
          range_above a b rows
            (All-weaken (λ x. a < x.0) (λ x. k < x.0) rows (λ x h. ground (arith, above, h)) s.0) in
        ground (arith, other, above, nothing, same)
  ]
]

pub range_none : (a b : ℕ) (rows : Rows) → b ≤ a → keep (in_range a b) rows ≡ []
unfolding keep in_range
range_none a b [] h = refl
range_none a b (row ∷ rows) h = ground (arith, range_none a b rows h)
