-- ===== src/Cluster/LogStore/Log.antt =====
-- The store against a log: an entry, or none, for every index.
use librtmp2_server.Base.{
  ℕ, suc, ◌+◌, ◌^◌, ◌≡◌, ◌<◌, refl, subst, inl, inr, arith, Bool, true, not, ◌||◌, Option, none,
  some, List, [], ◌∷◌, Text, lookup, keep, map_or, is_some, if◌then◌else◌, if-elim, ltb, leb,
  nat_eqb, nat_eq, All, All-keep, Bool-cases, Option-cases, some_inj,
}
use librtmp2_server.Cluster.LogStore.Store.{
  as_i64, Rows, upsert_row, LogStore, Failing, Result, ok, err, insert_entries, append, truncate,
  purge,
}
use librtmp2_server.Cluster.LogStore.Rows.{
  Sorted, lookup-upsert, upsert-Sorted, keep-Sorted, lookup-delete,
}

abbrev pub SmallIndex : ℕ → Type 0
SmallIndex i = i < 2 ^ 63

pub as_i64_small : (i : ℕ) → SmallIndex i → as_i64 i ≡ i + 2 ^ 63
as_i64_small i h = omega (arith, h)

-- The writes, with the text of the id that a purge is up to.
pub data Write (E : Type 0) : Type 0 where
  appending : List E → Write E
  truncating : ℕ → Write E
  purging : ℕ → Option Text → Write E

module _ {E : Type 0} (index : E → ℕ) (to_json : E → Option Text)
    (from_json : Text → Option E) where
  abbrev pub Log : Type 0
  Log = ℕ → Option E

  unfoldable pub spec_append : List E → Log → Log
  spec_append [] l = l
  spec_append (e ∷ es) l = spec_append es (λ i. if nat_eqb (index e) i then some e else l i)

  unfoldable pub spec_write : Write E → Log → Log
  spec_write (appending es) l = spec_append es l
  spec_write (truncating n) l = λ i. if ltb i n then l i else none
  spec_write (purging n json) l = λ i. if leb i n then none else l i

  unfoldable pub run_write : Write E → Failing → LogStore → LogStore × Result (Unit {0})
  run_write (appending es) f s = append index to_json es f s
  run_write (truncating n) f s = truncate n f s
  run_write (purging n json) f s = purge n json f s

  -- Every text can be read, and gives the entry of the log.
  pub record Holds (l : Log) (rows : Rows) : Type 0 where
    pub sorted : Sorted rows
    pub readable : All (λ row. is_some (from_json row.1) ≡ true) rows
    pub entries : (i : ℕ) → SmallIndex i → map_or (lookup (as_i64 i) rows) none from_json ≡ l i

  abbrev pub SmallWrite : Write E → Type 0
  SmallWrite (appending es) = All (λ e. SmallIndex (index e)) es
  SmallWrite (truncating n) = SmallIndex n
  SmallWrite (purging n json) = SmallIndex n

  upsert-readable :
      (k : ℕ) (v : Text) (rows : Rows)
      → is_some (from_json v) ≡ true
      → All (λ row. is_some (from_json row.1) ≡ true) rows
      → All (λ row. is_some (from_json row.1) ≡ true) (upsert_row k v rows)
  unfolding upsert_row
  upsert-readable k v [] h a = (h, tt)
  upsert-readable k v (row ∷ rows) h a =
      if-elim (All (λ x. is_some (from_json x.1) ≡ true)) (ltb k row.0) (λ e. (h, a))
        (λ e.
          if-elim (All (λ x. is_some (from_json x.1) ≡ true)) (nat_eqb k row.0) (λ f. (h, a.1))
            (λ f. (a.0, upsert-readable k v rows h a.1)))

  same_key : (i j : ℕ) → SmallIndex i → SmallIndex j → nat_eqb (as_i64 i) (as_i64 j) ≡ nat_eqb i j
  same_key i j h k = rw (as_i64_small i h, as_i64_small j k) (ground arith)

  upsert-Holds :
      (e : E) (t : Text) (l : Log) (rows : Rows)
      → from_json t ≡ some e
      → SmallIndex (index e)
      → Holds l rows
      → Holds
          (λ i. if nat_eqb (index e) i then some e else l i)
          (upsert_row (as_i64 (index e)) t rows)
  upsert-Holds e t l rows read small holds = record {
    sorted = upsert-Sorted (as_i64 (index e)) t rows holds.sorted;
    readable = upsert-readable (as_i64 (index e)) t rows (rw read refl) holds.readable;
    entries = λ i h. entry_at i h;
  }
    where
      entry_at :
          (i : ℕ)
          → SmallIndex i
          → map_or (lookup (as_i64 i) (upsert_row (as_i64 (index e)) t rows)) none from_json
            ≡ (if nat_eqb (index e) i then some e else l i)
      entry_at i h = elim (Bool-cases (nat_eqb (index e) i)) [
        | inl same ↦
            rw
              (
                lookup-upsert (as_i64 i) (as_i64 (index e)) t rows,
                same_key (index e) i small h,
                same,
              )
              read
        | inr other ↦
            rw
              (
                lookup-upsert (as_i64 i) (as_i64 (index e)) t rows,
                same_key (index e) i small h,
                other,
              )
              (holds.entries i h)
      ]

  insert-Holds :
      (f : Failing) (n : ℕ) (es : List E) (l : Log) (rows now : Rows)
      → ((e : E) (t : Text) → to_json e ≡ some t → from_json t ≡ some e)
      → All (λ e. SmallIndex (index e)) es
      → insert_entries index to_json f n es rows ≡ some now
      → Holds l rows
      → Holds (spec_append es l) now
  unfolding insert_entries spec_append
  insert-Holds f n [] l rows now trip small done holds = subst (Holds l) (some_inj done) holds
  insert-Holds f n (e ∷ es) l rows now trip small done holds = elim (Option-cases (to_json e)) [
    | inl bad ↦ absurd (ground (arith, done, bad))
    | inr (t, good) ↦ elim (Bool-cases (f.statement n)) [
      | inl fails ↦ absurd (ground (arith, done, good, fails))
      | inr works ↦
          insert-Holds f (suc n) es _ _ now trip small.1 (ground (arith, done, good, works))
            (upsert-Holds e t l rows (trip e t good) small.0 holds)
    ]
  ]

  delete-Holds :
      (q : ℕ → Bool) (l l' : Log) (rows : Rows)
      → ((i : ℕ) → SmallIndex i → l' i ≡ (if q (as_i64 i) then l i else none))
      → Holds l rows
      → Holds l' (keep (λ (row : ℕ × Text). q row.0) rows)
  delete-Holds q l l' rows h holds = record {
    sorted = keep-Sorted (λ (row : ℕ × Text). q row.0) rows holds.sorted;
    readable = All-keep _ (λ (row : ℕ × Text). q row.0) rows holds.readable;
    entries = λ i small.
        ground (arith, lookup-delete (as_i64 i) q rows, holds.entries i small, h i small);
  }

  -- What a write leaves: the new log if it answers Ok, and otherwise the old one and the old store.
  abbrev pub Kept : Write E → Log → LogStore → LogStore × Result (Unit {0}) → Type 0
  Kept w l s (now, ok done) = Holds (spec_write w l) now.raft_log
  Kept w l s (now, err) = (now ≡ s) × Holds l now.raft_log

  append-Kept :
      (es : List E) (f : Failing) (l : Log) (s : LogStore)
      → ((e : E) (t : Text) → to_json e ≡ some t → from_json t ≡ some e)
      → All (λ e. SmallIndex (index e)) es
      → Holds l s.raft_log
      → Kept (appending es) l s (append index to_json es f s)
  unfolding append spec_write
  append-Kept es f l s trip small holds =
      if-elim (Kept (appending es) l s) f.begin (λ e. (refl, holds))
        (λ e. elim (Option-cases (insert_entries index to_json f 0 es s.raft_log)) [
          | inl failed ↦ rw failed (refl, holds)
          | inr (rows, done) ↦ rw done (
              if-elim (Kept (appending es) l s) f.commit (λ e. (refl, holds))
                (λ e. insert-Holds f 0 es l s.raft_log rows trip small done holds))
        ])

  pub run_write-Kept :
      (w : Write E) (f : Failing) (l : Log) (s : LogStore)
      → ((e : E) (t : Text) → to_json e ≡ some t → from_json t ≡ some e)
      → SmallWrite w
      → Holds l s.raft_log
      → Kept w l s (run_write w f s)
  unfolding run_write
  run_write-Kept (appending es) f l s trip small holds = append-Kept es f l s trip small holds
  run_write-Kept (truncating n) f l s trip small holds =
      unfold truncate spec_write in
      (if-elim (Kept (truncating n) l s) (f.statement 0) (λ e. (refl, holds))
        (λ e.
          delete-Holds (λ k. not (leb (as_i64 n) k)) l _ s.raft_log
            (λ i h. rw (as_i64_small n small, as_i64_small i h) (ground arith)) holds))
  run_write-Kept (purging n none) f l s trip small holds = unfold purge in (refl, holds)
  run_write-Kept (purging n (some json)) f l s trip small holds =
      unfold purge spec_write in
      (if-elim (Kept (purging n (some json)) l s)
        (f.begin || f.statement 0 || f.statement 1 || f.commit) (λ e. (refl, holds))
        (λ e.
          delete-Holds (λ k. not (leb k (as_i64 n))) l _ s.raft_log
            (λ i h. rw (as_i64_small n small, as_i64_small i h) (ground arith)) holds))
