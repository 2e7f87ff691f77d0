-- ===== src/RateLimit/Bounds.antt =====
-- The size of the table of buckets.
use librtmp2_server.Base.{
  ℕ, ◌≡◌, ◌<◌, ◌≤◌, refl, arith, Bool, true, false, Option, none, some, List, [], ◌∷◌, Text, lookup,
  insert, remove, length, map_or, is_some, if◌then◌else◌, nat_eqb, text_eqb_iff, text_eq, Distinct,
  lookup-insert, lookup-remove, insert-Distinct, remove-Distinct, length-insert, length-remove-le,
  length-keep-le, length-append, length-remove-lt, some_inj, sym, subst, ◌∙◌, Bool-cases, inl, inr,
}
use librtmp2_server.RateLimit.Limiter.{
  max_tracked_keys, Bucket, Buckets, timestamp_in_window, purge_expired, insert_fresh, check,
}
use librtmp2_server.RateLimit.Evict.{
  pruned, lookup-purge, purge-Distinct, length-purge-le, refused, evicted, Roomy, as_is, purged,
  full,
}
use librtmp2_server.RateLimit.Outcome.{
  Without, Checked, denied, throttled, counted, fresh, check-Checked,
}

-- A request: the key and the two readings of the clock.
pub record Call : Type 0 where
  pub key : Text
  pub now : ℕ
  pub late : ℕ

module _ (window : ℕ) (cap : Text → ℕ) where
  -- The requests one after the other, where a key always has the same cap.
  unfoldable pub run_checks : List Call → Buckets → Buckets × List Bool
  run_checks [] g = (g, [])
  run_checks (c ∷ cs) g =
      let (now, answer) = check window c.key (cap c.key) c.now c.late g in
      let (last, answers) = run_checks cs now in (last, answer ∷ answers)

module _ (cap : Text → ℕ) where
  -- A bucket is not empty, has the cap of its key and no more entries than it says.
  abbrev pub IsBucket : Text → Bucket → Type 0
  IsBucket k b = (0 < length b.entries) × (length b.entries ≤ cap k) × (b.max_requests ≡ cap k)

  pub record IsBounded (g : Buckets) : Type 0 where
    pub distinct : Distinct g
    pub few : length g ≤ max_tracked_keys
    pub buckets : (k : Text) (b : Bucket) → lookup k g ≡ some b → IsBucket k b

  insert-IsBounded :
      (k : Text) (b : Bucket) (g : Buckets)
      → IsBucket k b
      → (is_some (lookup k g) ≡ false → length g < max_tracked_keys)
      → IsBounded g
      → IsBounded (insert k b g)
  insert-IsBounded k b g h room bounded = record {
    distinct = insert-Distinct k b g bounded.distinct;
    few = ground (arith, length-insert k b g, room, bounded.few);
    buckets =
        λ j c e. ground (arith, lookup-insert j k b g, bounded.buckets j c, text_eqb_iff k j, h);
  }

  remove-IsBounded : (k : Text) (g : Buckets) → IsBounded g → IsBounded (remove k g)
  remove-IsBounded k g bounded = record {
    distinct = remove-Distinct k g bounded.distinct;
    few = omega (arith, length-remove-le k g, bounded.few);
    buckets = λ j c e. ground (arith, lookup-remove j k g, bounded.buckets j c);
  }

  purged_bucket :
      (window now : ℕ) (j : Text) (x : Option Bucket) (c : Bucket)
      → ((b : Bucket) → x ≡ some b → IsBucket j b)
      → map_or x none (λ b.
        if nat_eqb (length (pruned window now b).entries) 0
        then none
        else some (pruned window now b))
        ≡ some c
      → IsBucket j c
  purged_bucket window now j none c h e = absurd (ground arith)
  purged_bucket window now j (some b) c h e =
      elim (Bool-cases (nat_eqb (length (pruned window now b).entries) 0)) [
        | inl gone ↦ absurd (ground arith)
        | inr left ↦ subst (IsBucket j) (some_inj (kept left e)) (
          ground (arith, left),
          omega (arith, (h b refl).1, length-keep-le (timestamp_in_window window now) b.entries),
          (h b refl).2,
        )
      ]
    where
      kept :
          nat_eqb (length (pruned window now b).entries) 0 ≡ false
          → (if nat_eqb (length (pruned window now b).entries) 0
              then none
              else some (pruned window now b))
            ≡ some c
          → some (pruned window now b) ≡ some c
      kept l f = ground (arith, l, f)

  pub purge-IsBounded :
      (window now : ℕ) (g : Buckets) → IsBounded g → IsBounded (purge_expired window g now)
  purge-IsBounded window now g bounded = record {
    distinct = purge-Distinct window now g bounded.distinct;
    few = omega (arith, length-purge-le window now g, bounded.few);
    buckets = λ j c e.
        purged_bucket window now j (lookup j g) c (bounded.buckets j)
          (sym (lookup-purge window now j g bounded.distinct) ∙ e);
  }

  pub Roomy-IsBounded :
      (window now : ℕ) (g : Buckets) (r : Buckets × Bool)
      → Roomy window now g r
      → IsBounded g
      → IsBounded r.0 × (r.1 ≡ true → length r.0 < max_tracked_keys)
  Roomy-IsBounded window now g r (as_is room) bounded = (bounded, λ h. room)
  Roomy-IsBounded window now g r (purged at_cap room) bounded =
      (purge-IsBounded window now g bounded, λ h. room)
  Roomy-IsBounded window now g r (full r' at_cap (refused e)) bounded =
      (purge-IsBounded window now g bounded, λ h. cc)
  Roomy-IsBounded window now g r (full r' at_cap (evicted k b there able)) bounded = (
    remove-IsBounded k _ (purge-IsBounded window now g bounded),
    λ h. ground (
      arith,
      there,
      length-remove-lt k (purge_expired window g now),
      length-purge-le window now g,
      bounded.few,
    ),
  )

  fresh-IsBounded :
      (key : Text) (now : ℕ) (r : Buckets × Bool)
      → 0 < cap key
      → IsBounded r.0 × (r.1 ≡ true → length r.0 < max_tracked_keys)
      → IsBounded (insert_fresh key (cap key) now r).0
  unfolding insert_fresh
  fresh-IsBounded key now (g, false) pos h = h.0
  fresh-IsBounded key now (g, true) pos h =
      insert-IsBounded key _ g (omega arith, omega (arith, pos), refl) (λ e. h.1 refl) h.0

  pub Without-IsBounded :
      {window now : ℕ} {key : Text} {g : Buckets} (g' : Buckets)
      → Without window key (cap key) now g g'
      → IsBounded g
      → IsBounded g'
  Without-IsBounded g' without bounded = record {
    distinct = without.distinct;
    few = omega (arith, without.shorter, bounded.few);
    buckets = λ j c e. ground (arith, without.others j, bounded.buckets j c);
  }

  pub Checked-IsBounded :
      (window now : ℕ) (key : Text) (g : Buckets) (r : Buckets × Bool)
      → Checked window key (cap key) now g r
      → IsBounded g
      → IsBounded r.0
  Checked-IsBounded window now key g r (denied z) bounded = bounded
  Checked-IsBounded window now key g r (throttled b pos there many) bounded =
      insert-IsBounded key _ g
        (
          omega (arith, many, pos),
          omega (
            arith,
            (bounded.buckets key b there).1,
            length-keep-le (timestamp_in_window window now) b.entries,
          ),
          (bounded.buckets key b there).2,
        )
        (λ h. absurd (ground arith)) bounded
  Checked-IsBounded window now key g r (counted b there below) bounded =
      insert-IsBounded key _ g
        (
          ground (arith, length-append (pruned window now b).entries (now ∷ [])),
          ground (arith, below, length-append (pruned window now b).entries (now ∷ [])),
          (bounded.buckets key b there).2,
        )
        (λ h. absurd (ground arith)) bounded
  Checked-IsBounded window now key g r (fresh g' r' pos without roomy) bounded =
      fresh-IsBounded key now r' pos
        (Roomy-IsBounded window now g' r' roomy (Without-IsBounded g' without bounded))

-- Let every key always come with the same cap. Whatever requests come, at whatever instants: the
-- table never has more than 10,000 buckets, with different keys; none is empty, and none has more
-- entries than the cap of its key. So the memory of the limiter is bounded.
pub run_checks-IsBounded :
    (window : ℕ) (cap : Text → ℕ) (cs : List Call) (g : Buckets)
    → IsBounded cap g
    → IsBounded cap (run_checks window cap cs g).0
unfolding run_checks
run_checks-IsBounded window cap [] g bounded = bounded
run_checks-IsBounded window cap (c ∷ cs) g bounded = run_checks-IsBounded window cap cs _ (
    Checked-IsBounded cap window c.now c.key g _
      (check-Checked window c.key (cap c.key) c.now g c.late bounded.distinct) bounded)
