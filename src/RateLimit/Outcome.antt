-- ===== src/RateLimit/Outcome.antt =====
-- The ways in which `check` can end.
use librtmp2_server.Base.{
  ℕ, ◌≡◌, ◌<◌, ◌≤◌, inl, inr, refl, arith, Bool, true, false, none, some, List, [], ◌∷◌, ◌++◌, Text,
  lookup, insert, remove, keep, length, map_or, is_some, if◌then◌else◌, leb, nat_eqb, text_eqb,
  text_eqb_iff, text_eq, Distinct, lookup-insert, lookup-remove, insert-Distinct, remove-Distinct,
  Bool-cases, Option-cases, length-insert, length-zero, length-remove-lt,
}
use librtmp2_server.RateLimit.Limiter.{
  Bucket, Buckets, timestamp_in_window, insert_fresh, check_tracked, check,
}
use librtmp2_server.RateLimit.Evict.{pruned, Roomy, room_for_key-Roomy}

-- The entries of a client that are in the window.
abbrev pub active : ℕ → ℕ → Text → Buckets → List ℕ
active window now key g =
    map_or (lookup key g) [] (λ b. keep (timestamp_in_window window now) b.entries)

module _ (window : ℕ) (key : Text) (cap now : ℕ) (g : Buckets) where
  -- A table without the client's bucket, which held nothing in the window.
  pub record Without (g' : Buckets) : Type 0 where
    pub others : (j : Text) → lookup j g' ≡ (if text_eqb key j then none else lookup j g)
    pub distinct : Distinct g'
    pub shorter : length g' ≤ length g
    pub tracked : is_some (lookup key g) ≡ true → length g' < length g
    pub stale : active window now key g ≡ []

  pub data Checked : Buckets × Bool → Type 0 where
    denied : cap ≡ 0 → Checked (g, false)
    throttled :
        (b : Bucket)
        → 0 < cap
        → lookup key g ≡ some b
        → cap ≤ length (pruned window now b).entries
        → Checked (insert key (pruned window now b) g, false)
    counted :
        (b : Bucket)
        → lookup key g ≡ some b
        → length (pruned window now b).entries < cap
        → Checked
            (insert key (record b { entries = (pruned window now b).entries ++ now ∷ [] }) g, true)
    fresh :
        (g' : Buckets) (r : Buckets × Bool)
        → 0 < cap
        → Without g'
        → Roomy window now g' r
        → Checked (insert_fresh key cap now r)

  Without-bucket :
      (b : Bucket)
      → Distinct g
      → lookup key g ≡ some b
      → nat_eqb (length (pruned window now b).entries) 0 ≡ true
      → Without (remove key (insert key (pruned window now b) g))
  Without-bucket b d there stale = record {
    others = λ j. ground (
      arith,
      lookup-remove j key (insert key (pruned window now b) g),
      lookup-insert j key (pruned window now b) g,
    );
    distinct = remove-Distinct key _ (insert-Distinct key _ g d);
    shorter = ground (arith, less);
    tracked = λ h. less;
    stale = ground (arith, there, length-zero (pruned window now b).entries stale);
  }
    where
      less : length (remove key (insert key (pruned window now b) g)) < length g
      less = ground (
        arith,
        there,
        length-insert key (pruned window now b) g,
        length-remove-lt key (insert key (pruned window now b) g),
        lookup-insert key key (pruned window now b) g,
        text_eqb_iff key key,
      )

  tracked-Checked :
      (late : ℕ) (b : Bucket)
      → 0 < cap
      → Distinct g
      → lookup key g ≡ some b
      → Checked (check_tracked window key cap now late b g)
  unfolding check_tracked
  tracked-Checked late b pos d there =
      elim (Bool-cases (leb cap (length (pruned window now b).entries))) [
        | inl at_cap ↦ rw at_cap (throttled b pos there (ground (arith, at_cap)))
        | inr below ↦ elim (Bool-cases (nat_eqb (length (pruned window now b).entries) 0)) [
          | inr some_left ↦ rw (below, some_left) (counted b there (ground (arith, below)))
          | inl stale ↦
              rw (below, stale)
                (fresh _ _ pos (Without-bucket b d there stale) (
                  room_for_key-Roomy window now late _
                    (remove-Distinct key _ (insert-Distinct key _ g d))))
        ]
      ]

  pub check-Checked : (late : ℕ) → Distinct g → Checked (check window key cap now late g)
  unfolding check
  check-Checked late d = elim (Bool-cases (nat_eqb cap 0)) [
    | inl zero_cap ↦ rw zero_cap (denied (ground (arith, zero_cap)))
    | inr pos ↦ rw pos (elim (Option-cases (lookup key g)) [
      | inl absent ↦ rw absent (
          fresh g _ (ground (arith, pos))
            (record {
              others = λ j. ground (arith, text_eqb_iff key j);
              distinct = d;
              shorter = omega arith;
              tracked = λ h. absurd (ground arith);
              stale = rw absent refl;
            })
            (room_for_key-Roomy window now late g d))
      | inr (b, there) ↦ rw there (tracked-Checked late b (ground (arith, pos)) d there)
    ])
  ]
