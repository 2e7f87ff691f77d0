-- ===== src/Cluster/LogStore/Votes.antt =====
-- The vote and the committed id between the writes of a log.
use librtmp2_server.Base.{
  ℕ, ◌≡◌, refl, ap, ◌∙◌, false, ◌||◌, Option, none, some, List, [], ◌∷◌, Text, map_or,
  if◌then◌else◌, if-elim, inl, inr, Option-cases,
}
use librtmp2_server.Cluster.LogStore.Store.{
  empty_store, LogStore, Failing, Result, ok, err, save_committed, read_committed, save_vote,
  read_vote, insert_entries, append, truncate, purge,
}
use librtmp2_server.Cluster.LogStore.Log.{Write, appending, truncating, purging, run_write}
use librtmp2_server.Cluster.LogStore.Answered.{is_ok}

module _ {E C V : Type 0} (index : E → ℕ) (to_json : E → Option Text) (from_json : Text → Option E)
    (committed_to : Option C → Option Text) (committed_from : Text → Option (Option C))
    (vote_to : V → Option Text) (vote_from : Text → Option V) where
  pub data Call : Type 0 where
    writing : Write E → Call
    committing : Option C → Call
    voting : V → Call

  unfoldable pub run_call : Call → Failing → LogStore → LogStore × Result (Unit {0})
  run_call (writing w) f s = run_write index to_json from_json w f s
  run_call (committing id) f s = save_committed committed_to committed_from id f s
  run_call (voting v) f s = save_vote vote_to vote_from v f s

  unfoldable pub run_calls : List (Call × Failing) → LogStore → LogStore
  run_calls [] s = s
  run_calls ((c, f) ∷ cs) s = run_calls cs (run_call c f s).0

  -- What a node has to remember.
  pub record Memory : Type 0 where
    pub vote : Option V
    pub committed : Option C

  unfoldable pub remember : Call → Memory → Memory
  remember (writing w) m = m
  remember (committing id) m = record m { committed = id }
  remember (voting v) m = record m { vote = some v }

  -- The calls that have answered Ok, on the memory.
  unfoldable pub remember_all : List (Call × Failing) → Memory → LogStore → Memory
  remember_all [] m s = m
  remember_all ((c, f) ∷ cs) m s =
      let (now, answer) = run_call c f s in
      remember_all cs (if is_ok answer then remember c m else m) now

  abbrev pub Remembers : Memory → LogStore → Type 0
  Remembers m s =
      (f : Failing)
      → f.statement 0 ≡ false
      → (read_vote vote_to vote_from f s ≡ ok m.vote)
        × (read_committed committed_to committed_from f s ≡ ok m.committed)

  -- A read depends on the cells only.
  abbrev Same : LogStore → LogStore × Result (Unit {0}) → Type 0
  Same s r = (r.0.raft_vote ≡ s.raft_vote) × (r.0.committed ≡ s.committed)

  write-Same :
      (w : Write E) (f : Failing) (s : LogStore) → Same s (run_write index to_json from_json w f s)
  unfolding run_write append truncate purge
  write-Same (appending es) f s =
      if-elim (Same s) f.begin (λ e. (refl, refl))
        (λ e. elim (Option-cases (insert_entries index to_json f 0 es s.raft_log)) [
          | inl failed ↦ rw failed (refl, refl)
          | inr (rows, done) ↦
              rw done (if-elim (Same s) f.commit (λ g. (refl, refl)) (λ g. (refl, refl)))
        ])
  write-Same (truncating n) f s =
      if-elim (Same s) (f.statement 0) (λ e. (refl, refl)) (λ e. (refl, refl))
  write-Same (purging n none) f s = (refl, refl)
  write-Same (purging n (some json)) f s =
      if-elim (Same s) (f.begin || f.statement 0 || f.statement 1 || f.commit) (λ e. (refl, refl))
        (λ e. (refl, refl))

  Same-Remembers :
      (m : Memory) (s : LogStore) (r : LogStore × Result (Unit {0}))
      → Same s r
      → Remembers m s
      → Remembers m r.0
  unfolding read_vote read_committed
  Same-Remembers m s r same memory f works = (
    ap
          (λ (cell : Option Text).
            if f.statement 0
            then err
            else map_or cell (ok none) (λ json. map_or (vote_from json) err (λ v. ok (some v))))
          same.0
        ∙ (memory f works).0,
    ap
          (λ (cell : Option Text).
            if f.statement 0
            then err
            else map_or cell (ok none) (λ json. map_or (committed_from json) err (λ id. ok id)))
          same.1
        ∙ (memory f works).1,
  )

  -- After a call, with what it answers.
  abbrev After : Call → Memory → LogStore × Result (Unit {0}) → Type 0
  After c m (now, ok done) = Remembers (remember c m) now
  After c m (now, err) = Remembers m now

  After-write :
      (w : Write E) (m : Memory) (r : LogStore × Result (Unit {0}))
      → Remembers m r.0
      → After (writing w) m r
  unfolding remember
  After-write w m (now, ok done) h = h
  After-write w m (now, err) h = h

  call_After :
      (c : Call) (f : Failing) (m : Memory) (s : LogStore)
      → ((id : Option C) (t : Text) → committed_to id ≡ some t → committed_from t ≡ some id)
      → ((v : V) (t : Text) → vote_to v ≡ some t → vote_from t ≡ some v)
      → Remembers m s
      → After c m (run_call c f s)
  unfolding run_call save_committed save_vote remember read_vote read_committed
  call_After (writing w) f m s trip trip_vote memory =
      After-write w m (run_write index to_json from_json w f s)
        (Same-Remembers m s (run_write index to_json from_json w f s) (write-Same w f s) memory)
  call_After (committing id) f m s trip trip_vote memory = elim (Option-cases (committed_to id)) [
    | inl bad ↦ rw bad memory
    | inr (t, good) ↦ rw good (
        if-elim (After (committing id) m) (f.statement 0) (λ e. memory)
          (λ e g works. ((memory g works).0, rw (works, trip id t good) refl)))
  ]
  call_After (voting v) f m s trip trip_vote memory = elim (Option-cases (vote_to v)) [
    | inl bad ↦ rw bad memory
    | inr (t, good) ↦ rw good (
        if-elim (After (voting v) m) (f.statement 0) (λ e. memory)
          (λ e g works. (rw (works, trip_vote v t good) refl, (memory g works).1)))
  ]

  After-remember :
      (c : Call) (m : Memory) (r : LogStore × Result (Unit {0}))
      → After c m r
      → Remembers (if is_ok r.1 then remember c m else m) r.0
  unfolding is_ok
  After-remember c m (now, ok done) h = h
  After-remember c m (now, err) h = h

  calls_Remembers :
      (cs : List (Call × Failing)) (m : Memory) (s : LogStore)
      → ((id : Option C) (t : Text) → committed_to id ≡ some t → committed_from t ≡ some id)
      → ((v : V) (t : Text) → vote_to v ≡ some t → vote_from t ≡ some v)
      → Remembers m s
      → Remembers (remember_all cs m s) (run_calls cs s)
  unfolding run_calls remember_all
  calls_Remembers [] m s trip trip_vote memory = memory
  calls_Remembers ((c, f) ∷ cs) m s trip trip_vote memory =
      calls_Remembers cs _ _ trip trip_vote
        (After-remember c m (run_call c f s) (call_After c f m s trip trip_vote memory))

  abbrev pub blank : Memory
  blank = record { vote = none; committed = none }

  -- Let reading undo writing as JSON. From an empty store, whatever is appended, truncated, purged,
  -- committed and voted, in whatever order, and whichever statements fail: a read that does not fail
  -- gives the last vote whose `save_vote` answered Ok, and the last id whose `save_committed` did,
  -- or none if there is none. So no write of the log loses a vote, and one that was not confirmed
  -- is not kept.
  pub run_calls-Remembers :
      (cs : List (Call × Failing)) (f : Failing)
      → ((id : Option C) (t : Text) → committed_to id ≡ some t → committed_from t ≡ some id)
      → ((v : V) (t : Text) → vote_to v ≡ some t → vote_from t ≡ some v)
      → f.statement 0 ≡ false
      → (read_vote vote_to vote_from f (run_calls cs empty_store)
          ≡ ok (remember_all cs blank empty_store).vote)
        × (read_committed committed_to committed_from f (run_calls cs empty_store)
            ≡ ok (remember_all cs blank empty_store).committed)
  unfolding read_vote read_committed
  run_calls-Remembers cs f trip trip_vote works =
      calls_Remembers cs blank empty_store trip trip_vote (λ g ok. (rw ok refl, rw ok refl)) f works
