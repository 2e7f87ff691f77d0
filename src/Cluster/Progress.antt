-- ===== src/Cluster/Progress.antt =====
-- src/cluster/raft/state_machine.rs, `apply`: what a batch records as applied.
use librtmp2_server.Base.{
  ℕ, ◌≡◌, refl, sym, ap, ◌∙◌, arith, Bool, true, false, Option, none, some, List, [], ◌∷◌, ◌++◌,
  length, length-append, map_or, if-elim, append_assoc, append-nil, subst,
}
use librtmp2_server.Cluster.Command.{ClusterResponse, done}
use librtmp2_server.Cluster.StateMachine.Handlers.{Reply}
use librtmp2_server.Cluster.StateMachine.Apply.{
  Entry, EntryPayload, blank, normal, membership, SqliteStateMachine, apply_normal, is_error,
  persist_applied_tx, persisted, membership_stored, command_applied, apply_payload, apply_entry,
  answered, apply_from, apply,
}

module _ {L M : Type 0} where
  -- The same entries are recorded as applied, in the table and in memory.
  pub record SameRecord (a b : SqliteStateMachine L M) : Type 0 where
    pub meta : b.meta_last_applied ≡ a.meta_last_applied
    pub memory : b.last_applied ≡ a.last_applied
    pub meta_membership : b.meta_last_membership ≡ a.meta_last_membership
    pub memory_membership : b.last_membership ≡ a.last_membership

  -- Entry `l` is recorded as the last one applied.
  pub record Records (l : Option L) (sm : SqliteStateMachine L M) : Type 0 where
    pub meta : sm.meta_last_applied ≡ l
    pub memory : sm.last_applied ≡ l

  abbrev pub last_log_id : Option L → List (Entry L M) → Option L
  last_log_id l [] = l
  last_log_id l (e ∷ es) = last_log_id (some e.log_id) es

module _ {L M : Type 0} (index : L → ℕ) where
  -- What one entry does: it is answered and recorded, or nothing is recorded.
  abbrev EntryOutcome :
      Entry L M → SqliteStateMachine L M → SqliteStateMachine L M × Option ClusterResponse → Type 0
  EntryOutcome e sm x = map_or x.1 (SameRecord sm x.0) (λ r. Records (some e.log_id) x.0)

  persisted-EntryOutcome :
      (e : Entry L M) (r : ClusterResponse) (b : Bool) (mem : Option (L × M))
      (sm sm' : SqliteStateMachine L M)
      → SameRecord sm sm'
      → EntryOutcome e sm (persisted index r (persist_applied_tx index b e.log_id mem sm'))
  unfolding persisted persist_applied_tx
  persisted-EntryOutcome e r true mem sm sm' same = record { meta = refl; memory = refl }
  persisted-EntryOutcome e r false mem sm sm' same = same

  stored-EntryOutcome :
      (e : Entry L M) (m : L × M) (b : Bool) (sm : SqliteStateMachine L M)
      → EntryOutcome e sm
          (membership_stored index m (persist_applied_tx index b e.log_id (some m) sm))
  unfolding membership_stored persist_applied_tx
  stored-EntryOutcome e m true sm = record { meta = refl; memory = refl }
  stored-EntryOutcome e m false sm = record {
    meta = refl;
    memory = refl;
    meta_membership = refl;
    memory_membership = refl;
  }

  payload-EntryOutcome :
      (e : Entry L M) (p : EntryPayload M) (sm : SqliteStateMachine L M)
      → EntryOutcome e sm (apply_payload index e p sm)
  unfolding apply_payload command_applied
  payload-EntryOutcome e blank sm =
      persisted-EntryOutcome e done e.persists none sm sm
        (record { meta = refl; memory = refl; meta_membership = refl; memory_membership = refl })
  payload-EntryOutcome e (normal cmd) sm =
      if-elim (EntryOutcome e sm)
        (is_error (Reply.response (apply_normal e.calls (index e.log_id) cmd sm.db)))
        (λ e'. record {
          meta = refl;
          memory = refl;
          meta_membership = refl;
          memory_membership = refl;
        })
        (λ e'.
          persisted-EntryOutcome e _ e.persists none sm _ (record {
            meta = refl;
            memory = refl;
            meta_membership = refl;
            memory_membership = refl;
          }))
  payload-EntryOutcome e (membership m) sm = stored-EntryOutcome e (e.log_id, m) e.persists sm

  -- A batch that ends in an error at an entry: the entries before it form a batch that goes
  -- through, and no more than those are recorded.
  pub record StopsAt (es : List (Entry L M)) (sm after : SqliteStateMachine L M) : Type 0 where
    pub before : List (Entry L M)
    pub failing : Entry L M
    pub rest : List (Entry L M)
    pub reached : SqliteStateMachine L M
    pub responses : List ClusterResponse
    pub splits : es ≡ before ++ (failing ∷ rest)
    pub goes : apply index before sm ≡ (reached, some responses)
    pub same : SameRecord reached after

  -- A batch that goes through: one response per entry, and the last entry is recorded.
  pub record GoesThrough (l : Option L) (es : List (Entry L M)) (rs : List ClusterResponse)
      (after : SqliteStateMachine L M) : Type 0 where
    pub count : length rs ≡ length es
    pub records : Records (last_log_id l es) after

  abbrev pub Progress :
      Option L
      → List (Entry L M)
      → SqliteStateMachine L M
      → SqliteStateMachine L M × Option (List ClusterResponse)
      → Type 0
  Progress l es sm x = map_or x.1 (StopsAt es sm x.0) (λ rs. GoesThrough l es rs x.0)

  stopped :
      (es : List (Entry L M)) (sm : SqliteStateMachine L M)
      → apply_from index es (sm, none) ≡ (sm, none)
  unfolding apply_from
  stopped [] sm = refl
  stopped (e ∷ es) sm = refl

  apply_from-append :
      (xs ys : List (Entry L M)) (x : SqliteStateMachine L M × Option (List ClusterResponse))
      → apply_from index (xs ++ ys) x ≡ apply_from index ys (apply_from index xs x)
  unfolding apply_from
  apply_from-append [] ys x = refl
  apply_from-append (e ∷ es) ys (sm, none) = sym (stopped ys sm)
  apply_from-append (e ∷ es) ys (sm, some rs) =
      apply_from-append es ys (answered index rs (apply_entry index e sm))

  last_log_id-append :
      (l : Option L) (es : List (Entry L M)) (e : Entry L M)
      → last_log_id l (es ++ (e ∷ [])) ≡ some e.log_id
  last_log_id-append l [] e = refl
  last_log_id-append l (q ∷ es) e = last_log_id-append (some q.log_id) es e

  -- One more entry on a batch that goes through.
  module _ (l : Option L) (start : SqliteStateMachine L M) where
    batch_more :
        (pre : List (Entry L M)) (e : Entry L M) (sm : SqliteStateMachine L M)
        (rs : List ClusterResponse)
        → apply index pre start ≡ (sm, some rs)
        → apply index (pre ++ (e ∷ [])) start ≡ answered index rs (apply_entry index e sm)
    unfolding apply
    batch_more pre e sm rs goes =
        apply_from-append pre (e ∷ []) (start, some [])
        ∙ ap (apply_from index (e ∷ [])) goes
        ∙ (unfold apply_from in refl)

    -- From every state that `pre` leads to, the entries `es` make progress.
    abbrev Continues : List (Entry L M) → List (Entry L M) → Type 0
    Continues pre es =
        (sm : SqliteStateMachine L M) (rs : List ClusterResponse)
        → apply index pre start ≡ (sm, some rs)
        → GoesThrough l pre rs sm
        → Progress l (pre ++ es) start (apply_from index es (sm, some rs))

    entry-Progress :
        (pre es : List (Entry L M)) (e : Entry L M)
        → Continues (pre ++ (e ∷ [])) es
        → (sm : SqliteStateMachine L M) (rs : List ClusterResponse)
        → apply index pre start ≡ (sm, some rs)
        → GoesThrough l pre rs sm
        → (x : SqliteStateMachine L M × Option ClusterResponse) → apply_entry index e sm ≡ x
        → EntryOutcome e sm x
        → Progress l (pre ++ (e ∷ es)) start (apply_from index es (answered index rs x))
    unfolding answered
    entry-Progress pre es e next sm rs goes through (sm', none) eq out =
        subst (Progress l (pre ++ (e ∷ es)) start) (sym (stopped es sm')) (record {
          before = pre;
          failing = e;
          rest = es;
          reached = sm;
          responses = rs;
          splits = refl;
          goes = goes;
          same = out;
        })
    entry-Progress pre es e next sm rs goes through (sm', some r) eq out =
        subst (λ all. Progress l all start (apply_from index es (sm', some (rs ++ (r ∷ [])))))
          (append_assoc pre (e ∷ []) es)
          (next sm' (rs ++ (r ∷ [])) (batch_more pre e sm rs goes ∙ ap (answered index rs) eq)
            (record {
              count =
                  omega
                    (arith, length-append rs (r ∷ []), length-append pre (e ∷ []), through.count);
              records = subst (λ k. Records k sm') (sym (last_log_id-append l pre e)) out;
            }))

    batch-Progress : (es pre : List (Entry L M)) → Continues pre es
    unfolding apply_from apply_entry
    batch-Progress [] pre sm rs goes through =
        subst (λ all. GoesThrough l all rs sm) (sym (append-nil pre)) through
    batch-Progress (e ∷ es) pre sm rs goes through =
        entry-Progress pre es e (batch-Progress es (pre ++ (e ∷ []))) sm rs goes through _ refl
          (payload-EntryOutcome e e.payload sm)

  -- A batch either answers every entry and records the last one as applied, in `raft_meta` and in
  -- memory; or it ends in an error at some entry. Then the entries before that one form a batch
  -- that goes through, and what is recorded as applied, memberships included, is what they record:
  -- the failing entry is never counted as applied, whatever its command has done to the tables.
  pub apply-Progress :
      (es : List (Entry L M)) (sm : SqliteStateMachine L M)
      → Records sm.last_applied sm
      → Progress sm.last_applied es sm (apply index es sm)
  unfolding apply
  apply-Progress es sm h =
      batch-Progress sm.last_applied sm es [] sm [] (unfold apply apply_from in refl)
        (record { count = refl; records = h })
