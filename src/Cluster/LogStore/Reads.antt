-- ===== src/Cluster/LogStore/Reads.antt =====
-- Runs of writes, and what a read gives after them.
use librtmp2_server.Base.{
  ℕ, zero, suc, ◌+◌, ◌-◌, ◌≡◌, ◌≤◌, refl, sym, ap, ◌∙◌, inl, inr, arith, Bool, true, false, Option,
  none, some, List, [], ◌∷◌, Text, lookup, keep, map_or, is_some, if◌then◌else◌, leb, nat_eq, All,
  All-lookup, Bool-cases, Option-cases,
}
use librtmp2_server.Cluster.LogStore.Store.{
  empty_store, as_i64, i64_max, Rows, LogStore, Failing, Result, ok, err, Bound, start_of, end_of,
  end_bind, in_range, and_read, read_rows, try_get_log_entries,
}
use librtmp2_server.Cluster.LogStore.Rows.{Sorted, range_step, range_none}
use librtmp2_server.Cluster.LogStore.Answered.{is_ok, purged_to, write-Answered}
use librtmp2_server.Cluster.LogStore.Log.{
  SmallIndex, as_i64_small, Write, spec_write, run_write, Holds, SmallWrite, Kept, run_write-Kept,
}

-- The entries of a log from an index on, in order, over so many indices.
abbrev pub collect {ℓ} : {E : Type ℓ} → (ℕ → Option E) → ℕ → ℕ → List E
collect l a zero = []
collect l a (suc n) = map_or (l a) (collect l (suc a) n) (λ e. e ∷ collect l (suc a) n)

abbrev pub NeverFails : Failing → Type 0
NeverFails f = (f.begin ≡ false) × ((n : ℕ) → f.statement n ≡ false)

module _ {E : Type 0} (index : E → ℕ) (to_json : E → Option Text)
    (from_json : Text → Option E) where
  unfoldable pub run_writes : List (Write E × Failing) → LogStore → LogStore
  run_writes [] s = s
  run_writes ((w, f) ∷ ws) s = run_writes ws (run_write index to_json from_json w f s).0

  -- The writes that have answered Ok, on the log.
  unfoldable pub spec_writes : List (Write E × Failing) → (ℕ → Option E) → LogStore → ℕ → Option E
  spec_writes [] l s = l
  spec_writes ((w, f) ∷ ws) l s =
      let (now, answer) = run_write index to_json from_json w f s in
      spec_writes ws (if is_ok answer then spec_write index to_json from_json w l else l) now

  -- The text of the id up to which was purged last, by the writes that have answered Ok.
  unfoldable pub spec_purged : List (Write E × Failing) → Option Text → LogStore → Option Text
  spec_purged [] json s = json
  spec_purged ((w, f) ∷ ws) json s =
      let (now, answer) = run_write index to_json from_json w f s in
      spec_purged ws (if is_ok answer then purged_to index to_json from_json w json else json) now

  run_writes-purged :
      (ws : List (Write E × Failing)) (s : LogStore)
      → (run_writes ws s).last_purged_log_id ≡ spec_purged ws s.last_purged_log_id s
  unfolding run_writes spec_purged
  run_writes-purged [] s = refl
  run_writes-purged ((w, f) ∷ ws) s =
      let (now, answer) = run_write index to_json from_json w f s in
      run_writes-purged ws now
      ∙ ap (λ (json : Option Text). spec_purged ws json now)
          (write-Answered index to_json from_json w f s).0

  run_writes-Holds :
      (ws : List (Write E × Failing)) (l : ℕ → Option E) (s : LogStore)
      → ((e : E) (t : Text) → to_json e ≡ some t → from_json t ≡ some e)
      → All (λ w. SmallWrite index to_json from_json w.0) ws
      → Holds index to_json from_json l s.raft_log
      → Holds index to_json from_json (spec_writes ws l s) (run_writes ws s).raft_log
  unfolding run_writes spec_writes
  run_writes-Holds [] l s trip small holds = holds
  run_writes-Holds ((w, f) ∷ ws) l s trip small holds = run_writes-Holds ws _ _ trip small.1 (
      kept_holds w l s (run_write index to_json from_json w f s)
        (run_write-Kept index to_json from_json w f l s trip small.0 holds))
    where
      kept_holds :
          (w : Write E) (l : ℕ → Option E) (s : LogStore) (r : LogStore × Result (Unit {0}))
          → Kept index to_json from_json w l s r
          → Holds index to_json from_json
              (if is_ok r.1 then spec_write index to_json from_json w l else l)
              r.0.raft_log
      kept_holds w l s (now, ok u) k = unfold is_ok in k
      kept_holds w l s (now, err) k = unfold is_ok in k.1

module _ {E : Type 0} (from_json : Text → Option E) (l : ℕ → Option E) (rows : Rows) where
  read_range :
      (f : Failing) (m a n from to : ℕ)
      → from ≡ as_i64 a
      → to ≡ from + n
      → SmallIndex (a + n)
      → ((k : ℕ) → f.statement k ≡ false)
      → Sorted rows
      → ((i : ℕ) → SmallIndex i → map_or (lookup (as_i64 i) rows) none from_json ≡ l i)
      → ((k : ℕ) (t : Text) → lookup k rows ≡ some t → is_some (from_json t) ≡ true)
      → read_rows from_json f m (keep (in_range from to) rows) ≡ ok (collect l a n)
  unfolding read_rows and_read
  read_range f m a zero from to at end small works sorted has reads =
      ap (read_rows from_json f m) (range_none from to rows (omega (arith, end)))
      ∙ ap (λ (o : Bool). if o then err else ok []) (works m)
  read_range f m a (suc n) from to at end small works sorted has reads =
      let later = λ (k : ℕ).
        read_range f k (suc a) n (suc from) to
          (omega (
            arith,
            at,
            as_i64_small a (omega (arith, small)),
            as_i64_small (suc a) (omega (arith, small)),
          ))
          (omega (arith, end)) (omega (arith, small)) works sorted has reads in
      elim (Option-cases (lookup from rows)) [
        | inl absent ↦
            ap (read_rows from_json f m) (step ∙ ap pick absent)
            ∙ later m
            ∙ ap
                (λ (o : Option E).
                  ok (map_or o (collect l (suc a) n) (λ e. e ∷ collect l (suc a) n)))
                (sym (entry none absent))
        | inr (t, there) ↦ elim (Option-cases (from_json t)) [
          | inl bad ↦ absurd (ground (arith, bad, reads from t there))
          | inr (e, good) ↦
              ap (read_rows from_json f m) (step ∙ ap pick there)
              ∙ rw (works m, good, later (suc m)) refl
              ∙ ap
                  (λ (o : Option E).
                    ok (map_or o (collect l (suc a) n) (λ e. e ∷ collect l (suc a) n)))
                  (sym (entry (some t) there ∙ good))
        ]
      ]
    where
      rest : Rows
      rest = keep (in_range (suc from) to) rows

      pick : Option Text → Rows
      pick o = map_or o rest (λ v. (from, v) ∷ rest)

      step : keep (in_range from to) rows ≡ pick (lookup from rows)
      step = range_step from to rows sorted (omega (arith, end))

      entry : (o : Option Text) → lookup from rows ≡ o → l a ≡ map_or o none from_json
      entry o is =
          sym (has a (omega (arith, small)))
          ∙ ap (λ (k : ℕ). map_or (lookup k rows) none from_json) (sym at)
          ∙ ap (λ (x : Option Text). map_or x none from_json) is

end_bind_small : (e : ℕ) → SmallIndex e → end_bind e ≡ as_i64 e
unfolding end_bind
end_bind_small e h = elim (Bool-cases (leb i64_max e)) [
  | inl last ↦ rw last (ap as_i64 (last_index (ground (arith, last))))
  | inr before ↦ rw before refl
]
  where
    last_index : i64_max ≤ e → i64_max ≡ e
    last_index le = omega (arith, le, h)

-- What a lookup finds can be read.
readable_at :
    {E : Type 0} (from_json : Text → Option E) (k : ℕ) (t : Text) (rows : Rows)
    → lookup k rows ≡ some t
    → All (λ row. is_some (from_json row.1) ≡ true) rows
    → is_some (from_json t) ≡ true
readable_at from_json k t rows there a =
    All-lookup (λ row. is_some (from_json row.1) ≡ true) k t rows there a

module _ {E : Type 0} (index : E → ℕ) (to_json : E → Option Text)
    (from_json : Text → Option E) where
  none-Holds : Holds index to_json from_json (λ i. none) []
  unfolding lookup
  none-Holds = record { sorted = tt; readable = tt; entries = λ i h. refl }

  collect_none : (l : ℕ → Option E) (a b : ℕ) → b ≤ a → collect l a (b - a) ≡ []
  collect_none l a b le = ap (collect l a) {y = 0} (omega (arith, le))

  -- A read of a store that holds a log.
  range_Holds :
      (l : ℕ → Option E) (rows : Rows) (a b : ℕ) (f : Failing)
      → SmallIndex a
      → SmallIndex b
      → ((k : ℕ) → f.statement k ≡ false)
      → Holds index to_json from_json l rows
      → read_rows from_json f 0 (keep (in_range (as_i64 a) (as_i64 b)) rows)
        ≡ ok (collect l a (b - a))
  unfolding read_rows
  range_Holds l rows a b f small_a small_b works holds = elim (Bool-cases (leb a b)) [
    | inl up ↦
        let le : a ≤ b = ground (arith, up) in
        read_range from_json l rows f 0 a (b - a) _ _ refl (omega (arith, le, small_a, small_b))
          (omega (arith, le, small_b)) works holds.sorted holds.entries
          (λ k t there. readable_at from_json k t rows there holds.readable)
    | inr down ↦
        let le : b ≤ a = ground (arith, down) in
        ap (read_rows from_json f 0)
          (range_none (as_i64 a) (as_i64 b) rows (omega (arith, le, small_a, small_b)))
        ∙ ap (λ (o : Bool). if o then err else ok []) (works 0)
        ∙ ap (λ (es : List E). ok es) (sym (collect_none l a b le))
  ]

  read_Holds :
      (l : ℕ → Option E) (s : LogStore) (start finish : Bound) (f : Failing)
      → SmallIndex (start_of start)
      → SmallIndex (end_of finish)
      → NeverFails f
      → Holds index to_json from_json l s.raft_log
      → try_get_log_entries from_json start finish f s
        ≡ ok (collect l (start_of start) (end_of finish - start_of start))
  unfolding try_get_log_entries
  read_Holds l s start finish f a b works holds =
      ap
        (λ (o : Bool).
          if o
          then err
          else read_rows from_json f 0
              (keep (in_range (as_i64 (start_of start)) (end_bind (end_of finish))) s.raft_log))
        works.0
      ∙ ap
          (λ (to : ℕ).
            read_rows from_json f 0 (keep (in_range (as_i64 (start_of start)) to) s.raft_log))
          (end_bind_small (end_of finish) b)
      ∙ range_Holds l s.raft_log (start_of start) (end_of finish) f a b works.1 holds

  -- Let reading undo writing as JSON, and let all indices be below 2^63. On an empty store, whatever
  -- entries are appended, and whatever is truncated and purged, in whatever order, and whichever
  -- statements fail: a read without a failure gives exactly the entries of the range, each once and
  -- in the order of their indices, that the log has after the writes that answered Ok: what was
  -- appended last at an index and neither truncated nor purged since. The purged id on record is
  -- that of the last purge that answered Ok. And one more write, whatever it is and whichever of its
  -- statements fail, leaves the whole store as it was if it answers an error.
  pub run_writes-Reads :
      (ws : List (Write E × Failing)) (start finish : Bound) (f : Failing) (w : Write E)
      (g : Failing)
      → ((e : E) (t : Text) → to_json e ≡ some t → from_json t ≡ some e)
      → All (λ w. SmallWrite index to_json from_json w.0) ws
      → SmallIndex (start_of start)
      → SmallIndex (end_of finish)
      → NeverFails f
      → (try_get_log_entries from_json start finish f
            (run_writes index to_json from_json ws empty_store)
          ≡ ok (
              collect
                (spec_writes index to_json from_json ws (λ i. none) empty_store)
                (start_of start)
                (end_of finish - start_of start)))
        × ((run_writes index to_json from_json ws empty_store).last_purged_log_id
            ≡ spec_purged index to_json from_json ws none empty_store)
        × (let s = run_writes index to_json from_json ws empty_store in
            let (now, answer) = run_write index to_json from_json w g s in
            now ≡ (if is_ok answer then now else s))
  run_writes-Reads ws start finish f w g trip small a b works = (
    read_Holds _ _ start finish f a b works
        (run_writes-Holds index to_json from_json ws (λ i. none) empty_store trip small none-Holds),
    run_writes-purged index to_json from_json ws empty_store,
    (write-Answered index to_json from_json w g
        (run_writes index to_json from_json ws empty_store)).1,
  )
