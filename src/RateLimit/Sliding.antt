-- ===== src/RateLimit/Sliding.antt =====
-- The limiter against the history of all requests that were let through.
use librtmp2_server.Base.{
  Among, Among-insert, ℕ, ◌≡◌, ◌<◌, ◌≤◌, refl, sym, ap, subst, ◌∙◌, inl, inr, arith, Bool, true,
  false, some, List, [], ◌∷◌, ◌++◌, Text, lookup, insert, keep, length, map_or, is_some,
  if◌then◌else◌, ltb, text_eqb, text_eqb_iff, text_eq, lookup-insert, keep-append, Bool-cases,
  Option-cases, append-nil, any_of,
}
use librtmp2_server.RateLimit.Limiter.{
  max_tracked_keys, Bucket, Buckets, timestamp_in_window, insert_fresh,
}
use librtmp2_server.RateLimit.Evict.{pruned, Roomy-room, Roomy}
use librtmp2_server.RateLimit.Outcome.{active, Without, Checked, denied, throttled, counted, fresh}
use librtmp2_server.RateLimit.Bounds.{Call, IsBounded}
use librtmp2_server.RateLimit.Throttled.{keep-later}

-- Requests that have been let through: the key and the instant, the oldest first.
abbrev pub History : Type 0
History = List (Text × ℕ)

unfoldable pub times : Text → History → List ℕ
times k [] = []
times k (x ∷ h) = let rest = times k h in if text_eqb x.0 k then x.1 ∷ rest else rest

module _ (window : ℕ) (cap : Text → ℕ) where
  -- A request is let through exactly if the window that ends with it holds fewer than the cap.
  unfoldable pub allowed : Text → ℕ → History → Bool
  allowed k now h = ltb (length (keep (timestamp_in_window window now) (times k h))) (cap k)

  unfoldable pub spec_checks : List Call → History → History × List Bool
  spec_checks [] h = (h, [])
  spec_checks (c ∷ cs) h =
      let answer = allowed c.key c.now h in
      let (last, answers) = spec_checks cs (if answer then h ++ (c.key, c.now) ∷ [] else h) in
      (last, answer ∷ answers)

-- The table and the history have the same requests in every window from now on.
abbrev pub Agrees : ℕ → ℕ → Buckets → History → Type 0
Agrees window now g h =
    (k : Text) → active window now k g ≡ keep (timestamp_in_window window now) (times k h)

times-append : (k : Text) (h h' : History) → times k (h ++ h') ≡ times k h ++ times k h'
unfolding times
times-append k [] h' = refl
times-append k (x ∷ h) h' = ground (arith, times-append k h h')

pub times-push :
    (j k : Text) (now : ℕ) (h : History)
    → times j (h ++ (k, now) ∷ []) ≡ (if text_eqb k j then times j h ++ now ∷ [] else times j h)
unfolding times
times-push j k now h = ground (arith, times-append j h ((k, now) ∷ []), append-nil (times j h))

module _ (window now : ℕ) where
  active-insert :
      (j k : Text) (b : Bucket) (g : Buckets)
      → active window now j (insert k b g)
        ≡ (if text_eqb k j then (pruned window now b).entries else active window now j g)
  active-insert j k b g = ground (arith, lookup-insert j k b g)

  active-later :
      (before : ℕ) (k : Text) (g : Buckets)
      → before ≤ now
      → active window now k g ≡ keep (timestamp_in_window window now) (active window before k g)
  unfolding keep
  active-later before k g h = elim (Option-cases (lookup k g)) [
    | inl absent ↦ rw absent refl
    | inr (b, there) ↦ rw there (sym (keep-later window before now b.entries h))
  ]

  pub Agrees-later :
      (before : ℕ) (g : Buckets) (h : History)
      → before ≤ now
      → Agrees window before g h
      → Agrees window now g h
  Agrees-later before g h le agrees k =
      active-later before k g le
      ∙ ap (keep (timestamp_in_window window now)) (agrees k)
      ∙ keep-later window before now (times k h) le

  keep_twice :
      (ts : List ℕ)
      → keep (timestamp_in_window window now) (keep (timestamp_in_window window now) ts)
        ≡ keep (timestamp_in_window window now) ts
  keep_twice ts = keep-later window now now ts (omega arith)

  -- A new request in the table and in the history.
  Agrees-push :
      (key : Text) (b : Bucket) (g g' : Buckets) (h : History)
      → (pruned window now b).entries
        ≡ keep (timestamp_in_window window now) (times key h ++ now ∷ [])
      → ((j : Text) → text_eqb key j ≡ false → active window now j g' ≡ active window now j g)
      → Agrees window now g h
      → Agrees window now (insert key b g') (h ++ (key, now) ∷ [])
  Agrees-push key b g g' h new others agrees j = elim (Bool-cases (text_eqb key j)) [
    | inl same ↦ ground (
      arith,
      same,
      active-insert j key b g',
      times-push j key now h,
      new,
      ap (λ (x : Text). times x h) ((text_eqb_iff key j).0 same),
    )
    | inr other ↦
        ground
          (arith, other, active-insert j key b g', times-push j key now h, others j other, agrees j)
  ]

  -- A bucket that has lost what is out of the window.
  Agrees-pruned :
      (key : Text) (b : Bucket) (g : Buckets) (h : History)
      → lookup key g ≡ some b
      → Agrees window now g h
      → Agrees window now (insert key (pruned window now b) g) h
  Agrees-pruned key b g h there agrees j = ground (
    arith,
    active-insert j key (pruned window now b) g,
    keep_twice b.entries,
    agrees j,
    there,
    text_eqb_iff key j,
  )

  module _ (key : Text) (cap : Text → ℕ) (g : Buckets) (h : History) where
    -- The answer of the specification, and agreement afterwards.
    abbrev AnswersAs : Buckets × Bool → Type 0
    AnswersAs r =
        (r.1 ≡ allowed window cap key now h)
        × Agrees window now r.0 (if r.1 then h ++ (key, now) ∷ [] else h)

    -- The answer from what the table has in the window.
    allowed_active :
        Agrees window now g h
        → allowed window cap key now h ≡ ltb (length (active window now key g)) (cap key)
    unfolding allowed
    allowed_active agrees = ap (λ (ts : List ℕ). ltb (length ts) (cap key)) (sym (agrees key))

    active_at :
        (b : Bucket)
        → lookup key g ≡ some b
        → active window now key g ≡ (pruned window now b).entries
    active_at b there = ap (λ o. map_or o [] (λ (x : Bucket). (pruned window now x).entries)) there

    fresh-AnswersAs :
        (g' : Buckets) (r : Buckets × Bool)
        → 0 < cap key
        → Without window key (cap key) now g g'
        → length g' < max_tracked_keys
        → Roomy window now g' r
        → Agrees window now g h
        → AnswersAs (insert_fresh key (cap key) now r)
    unfolding insert_fresh
    fresh-AnswersAs g' r pos without room roomy agrees =
        subst (λ (x : Buckets × Bool). AnswersAs (insert_fresh key (cap key) now x))
          (sym (Roomy-room window now g' r roomy room))
          (
            ground (arith, allowed_active agrees, ap length without.stale, pos),
            Agrees-push key _ g g' h
                (sym (
                  keep-append (timestamp_in_window window now) (times key h) (now ∷ [])
                  ∙ ap (λ ts. ts ++ keep (timestamp_in_window window now) (now ∷ []))
                      (sym (agrees key) ∙ without.stale)))
                (λ j other. ground (arith, other, without.others j)) agrees,
          )

    pub Checked-AnswersAs :
        (r : Buckets × Bool)
        → Checked window key (cap key) now g r
        → IsBounded cap g
        → (is_some (lookup key g) ≡ false → length g < max_tracked_keys)
        → Agrees window now g h
        → AnswersAs r
    Checked-AnswersAs r (denied z) bounded room agrees =
        (ground (arith, allowed_active agrees, z), agrees)
    Checked-AnswersAs r (throttled b pos there many) bounded room agrees = (
      ground (arith, allowed_active agrees, ap length (active_at b there), many),
      Agrees-pruned key b g h there agrees,
    )
    Checked-AnswersAs r (counted b there below) bounded room agrees = (
      ground (arith, allowed_active agrees, ap length (active_at b there), below),
      Agrees-push key _ g g h
          (keep-append (timestamp_in_window window now) (pruned window now b).entries (now ∷ [])
            ∙ ap (λ ts. ts ++ keep (timestamp_in_window window now) (now ∷ []))
                (keep_twice b.entries ∙ sym (active_at b there) ∙ agrees key)
            ∙ sym (keep-append (timestamp_in_window window now) (times key h) (now ∷ [])))
          (λ j other. refl) agrees,
    )
    Checked-AnswersAs r (fresh g' r' pos without roomy) bounded room agrees =
        fresh-AnswersAs g' r' pos without
          (ground (arith, room, without.shorter, without.tracked, bounded.few)) roomy agrees

    -- No key comes in but that of the request.
    pub Checked-Among :
        (ks : List Text) (r : Buckets × Bool)
        → Checked window key (cap key) now g r
        → IsBounded cap g
        → (is_some (lookup key g) ≡ false → length g < max_tracked_keys)
        → any_of (λ x. text_eqb x key) ks ≡ true
        → Among ks g
        → Among ks r.0
    unfolding insert_fresh
    Checked-Among ks r (denied z) bounded room one among = among
    Checked-Among ks r (throttled b pos there many) bounded room one among =
        Among-insert ks key _ g one among
    Checked-Among ks r (counted b there below) bounded room one among =
        Among-insert ks key _ g one among
    Checked-Among ks r (fresh g' r' pos without roomy) bounded room one among =
        subst (λ (x : Buckets × Bool). Among ks (insert_fresh key (cap key) now x).0)
          (sym (
            Roomy-room window now g' r' roomy
              (ground (arith, room, without.shorter, without.tracked, bounded.few))))
          (Among-insert ks key _ g' one
            (λ k there. among k (ground (arith, without.others k, there))))
