-- ===== src/Cluster/Fencing/Log.antt =====
-- src/cluster/raft/state_machine.rs, `apply`: the epochs that a log hands out.
use librtmp2_server.Base.{
  ℕ, max, ◌≡◌, ◌≤◌, ◌<◌, arith, Bool, true, false, Option, none, some, List, [], ◌∷◌, ◌++◌,
  All-weaken, map_or, if-elim, subst,
}
use librtmp2_server.Db.Tables.{Database}
use librtmp2_server.Cluster.Command.{ClusterResponse, done}
use librtmp2_server.Cluster.StateMachine.Handlers.{Reply}
use librtmp2_server.Cluster.StateMachine.Apply.{
  Entry, EntryPayload, blank, normal, membership, SqliteStateMachine, apply_normal, is_error,
  persisted, membership_stored, command_applied, apply_payload, apply_entry, answered, apply_from,
  apply,
}
use librtmp2_server.Cluster.StateMachine.Stable.{apply_normal-Keeps}
use librtmp2_server.Cluster.StateMachine.Batch.{apply_entry-Keeps}
use librtmp2_server.Cluster.Fencing.Bounds.{OwnersBelow, Below, OwnersBelow-Stable}
use librtmp2_server.Cluster.Fencing.Answers.{epoch_of, Granted, apply_normal-Granted}

-- The epochs among the responses go up, from above `n`.
unfoldable pub Increasing : ℕ → List ClusterResponse → Type 0
Increasing n [] = Unit
Increasing n (r ∷ rs) = map_or (epoch_of r) (Increasing n rs) (λ e. (n < e) × Increasing e rs)

-- The last epoch among the responses, `n` if there is none.
unfoldable last_epoch : ℕ → List ClusterResponse → ℕ
last_epoch n [] = n
last_epoch n (r ∷ rs) = map_or (epoch_of r) (last_epoch n rs) (λ e. last_epoch e rs)

-- A response at the end, without an epoch or with one that is larger than all before.
abbrev Next : ℕ → ClusterResponse → Type 0
Next n r = map_or (epoch_of r) Unit (λ e. n < e)

Increasing-append :
    (n : ℕ) (rs : List ClusterResponse) (r : ClusterResponse)
    → Increasing n rs
    → Next (last_epoch n rs) r
    → Increasing n (rs ++ (r ∷ []))
unfolding Increasing last_epoch
Increasing-append n [] r h k =
    elim (epoch_of r) as (λ o. map_or o Unit (λ e. n < e) → map_or o Unit (λ e. (n < e) × Unit)) [
      | none ↦ λ k. tt
      | some e ↦ λ k. (k, tt)
    ]
      k
Increasing-append n (q ∷ rs) r h k =
    elim (epoch_of q)
        as (λ o.
          map_or o (Increasing n rs) (λ e. (n < e) × Increasing e rs)
          → Next (map_or o (last_epoch n rs) (λ e. last_epoch e rs)) r
          → map_or o (Increasing n (rs ++ (r ∷ [])))
              (λ e. (n < e) × Increasing e (rs ++ (r ∷ [])))) [
                | none ↦ λ h k. Increasing-append n rs r h k
                | some e ↦ λ h k. (h.0, Increasing-append e rs r h.1 k)
              ]
      h k

last_epoch-append :
    (n m : ℕ) (rs : List ClusterResponse) (r : ClusterResponse)
    → last_epoch n rs ≤ m
    → map_or (epoch_of r) Unit (λ e. e ≤ m)
    → last_epoch n (rs ++ (r ∷ [])) ≤ m
unfolding last_epoch
last_epoch-append n m [] r h k =
    elim (epoch_of r) as (λ o. map_or o Unit (λ e. e ≤ m) → map_or o n (λ e. e) ≤ m) [
      | none ↦ λ k. h
      | some e ↦ λ k. k
    ]
      k
last_epoch-append n m (q ∷ rs) r h k =
    elim (epoch_of q)
        as (λ o.
          map_or o (last_epoch n rs) (λ e. last_epoch e rs) ≤ m
          → map_or o (last_epoch n (rs ++ (r ∷ []))) (λ e. last_epoch e (rs ++ (r ∷ []))) ≤ m) [
            | none ↦ λ h. last_epoch-append n m rs r h k
            | some e ↦ λ h. last_epoch-append e m rs r h k
          ]
      h

below-weaken : (n m : ℕ) (d : Database) → n ≤ m → OwnersBelow n d → OwnersBelow m d
below-weaken n m d le h = All-weaken (Below m) (Below n) d.owners (λ o k. omega arith) h

module _ {L M : Type 0} (index : L → ℕ) where
  -- The log indices of the entries go up, from above `n`.
  abbrev pub Rising : ℕ → List (Entry L M) → Type 0
  Rising n [] = Unit
  Rising n (e ∷ es) = (n < index e.log_id) × Rising (index e.log_id) es

  abbrev pub last_index : ℕ → List (Entry L M) → ℕ
  last_index n [] = n
  last_index n (e ∷ es) = last_index (index e.log_id) es

  -- What an entry answers is granted at its log index.
  abbrev Answered : ℕ → SqliteStateMachine L M × Option ClusterResponse → Type 0
  Answered i x = map_or x.1 Unit (Granted i)

  persisted-Answered :
      (i : ℕ) (r : ClusterResponse) (x : SqliteStateMachine L M × Bool)
      → Granted i r
      → Answered i (persisted index r x)
  unfolding persisted
  persisted-Answered i r (sm, true) h = h
  persisted-Answered i r (sm, false) h = tt

  stored-Answered :
      (i : ℕ) (m : L × M) (x : SqliteStateMachine L M × Bool)
      → Answered i (membership_stored index m x)
  unfolding membership_stored Granted epoch_of
  stored-Answered i m (sm, true) = tt
  stored-Answered i m (sm, false) = tt

  payload-Answered :
      (e : Entry L M) (p : EntryPayload M) (sm : SqliteStateMachine L M)
      → Answered (max (index e.log_id) 1) (apply_payload index e p sm)
  unfolding apply_payload command_applied
  payload-Answered e blank sm = persisted-Answered _ done _ (unfold Granted epoch_of in tt)
  payload-Answered e (normal cmd) sm =
      if-elim (Answered (max (index e.log_id) 1))
        (is_error (Reply.response (apply_normal e.calls (index e.log_id) cmd sm.db))) (λ e'. tt)
        (λ e'. persisted-Answered _ _ _ (apply_normal-Granted e.calls (index e.log_id) cmd sm.db))
  payload-Answered e (membership m) sm = stored-Answered _ _ _

  entry-Answered :
      (e : Entry L M) (sm : SqliteStateMachine L M)
      → Answered (max (index e.log_id) 1) (apply_entry index e sm)
  unfolding apply_entry
  entry-Answered e sm = payload-Answered e e.payload sm

  last_index-le : (n : ℕ) (es : List (Entry L M)) → Rising n es → n ≤ last_index n es
  last_index-le n [] h = omega arith
  last_index-le n (e ∷ es) h = omega (arith, last_index-le (index e.log_id) es h.1)

  -- The owner rows lie below `m`, and the responses so far go up from above `n` to at most `m`.
  abbrev pub Fenced : ℕ → ℕ → SqliteStateMachine L M × Option (List ClusterResponse) → Type 0
  Fenced n m x = OwnersBelow m x.0.db × map_or x.1 Unit (Increasing n)

  abbrev Bounded : ℕ → ℕ → SqliteStateMachine L M × Option (List ClusterResponse) → Type 0
  Bounded n m x = Fenced n m x × map_or x.1 Unit (λ rs. last_epoch n rs ≤ m)

  step-Bounded :
      (n m i : ℕ) (rs : List ClusterResponse) (x : SqliteStateMachine L M × Option ClusterResponse)
      → m < i
      → Increasing n rs
      → last_epoch n rs ≤ m
      → OwnersBelow i x.0.db
      → Answered i x
      → Bounded n i (answered index rs x)
  unfolding answered Granted
  step-Bounded n m i rs (sm, none) lt inc le below a = ((below, tt), tt)
  step-Bounded n m i rs (sm, some r) lt inc le below a = (
    (below, Increasing-append n rs r inc (next (epoch_of r) a)),
    last_epoch-append n i rs r (omega arith) (bound (epoch_of r) a),
  )
    where
      next : (o : Option ℕ) → map_or o Unit (λ e. e ≡ i) → map_or o Unit (λ e. last_epoch n rs < e)
      next none a = tt
      next (some e) a = omega arith

      bound : (o : Option ℕ) → map_or o Unit (λ e. e ≡ i) → map_or o Unit (λ e. e ≤ i)
      bound none a = tt
      bound (some e) a = omega arith

  entry-Bounded :
      (n m : ℕ) (rs : List ClusterResponse) (e : Entry L M) (sm : SqliteStateMachine L M)
      → m < index e.log_id
      → Bounded n m (sm, some rs)
      → Bounded n (index e.log_id) (answered index rs (apply_entry index e sm))
  entry-Bounded n m rs e sm lt ((below, inc), le) =
      step-Bounded n m (index e.log_id) rs (apply_entry index e sm) lt inc le
        (apply_entry-Keeps index (OwnersBelow (index e.log_id)) e sm
          (apply_normal-Keeps (OwnersBelow-Stable (index e.log_id)) e.calls (λ k. tt)
            (index e.log_id) (omega arith))
          (below-weaken m (index e.log_id) sm.db (omega arith) below))
        (subst (λ k. Answered k (apply_entry index e sm)) (omega arith) (entry-Answered e sm))

  batch-Fenced :
      (n m : ℕ) (es : List (Entry L M)) (x : SqliteStateMachine L M × Option (List ClusterResponse))
      → Rising m es
      → Bounded n m x
      → Fenced n (last_index m es) (apply_from index es x)
  unfolding apply_from
  batch-Fenced n m [] x h b = b.0
  batch-Fenced n m (e ∷ es) (sm, none) h b =
      (below-weaken m (last_index m (e ∷ es)) sm.db (last_index-le m (e ∷ es) h) b.0.0, tt)
  batch-Fenced n m (e ∷ es) (sm, some rs) h b =
      batch-Fenced n (index e.log_id) es _ h.1 (entry-Bounded n m rs e sm h.0 b)

  -- On tables whose owner rows have epochs of at most `n`, a batch of entries with rising log
  -- indices above `n` leaves epochs of at most the last log index; and if it ends without an
  -- error, then the epochs that it answers are all larger than `n`, and each is larger than the
  -- ones before it. So no owner is ever given an epoch that was given before.
  pub apply-Fenced :
      (n : ℕ) (es : List (Entry L M)) (sm : SqliteStateMachine L M)
      → Rising n es
      → OwnersBelow n sm.db
      → Fenced n (last_index n es) (apply index es sm)
  unfolding apply
  apply-Fenced n es sm h below =
      batch-Fenced n n es (sm, some []) h
        ((below, unfold Increasing in tt), unfold last_epoch in omega arith)
