-- ===== src/Cluster/LogStore/Store.antt =====
-- `SqliteLogStore`, with the tables `raft_log`, `raft_meta` and `raft_vote`.
use librtmp2_server.Base.{
  ℕ, suc, ◌+◌, ◌-◌, ◌%◌, ◌^◌, Bool, not, ◌&&◌, ◌||◌, Option, none, some, List, [], ◌∷◌, Text, keep,
  map_or, if◌then◌else◌, ltb, leb, nat_eqb, saturating_add64, u64_mod,
}

-- `u as i64`, counted from the smallest i64: so `<` is the order of SQLite's integers.
abbrev pub as_i64 : ℕ → ℕ
as_i64 u = (u + 2 ^ 63) % u64_mod

abbrev pub i64_max : ℕ
i64_max = 2 ^ 63 - 1

-- The rows of `raft_log` in the order of `log_index`, its primary key.
abbrev pub Rows : Type 0
Rows = List (ℕ × Text)

-- `INSERT … ON CONFLICT(log_index) DO UPDATE`.
unfoldable pub upsert_row : ℕ → Text → Rows → Rows
upsert_row k v [] = (k, v) ∷ []
upsert_row k v (row ∷ rows) =
    let further = row ∷ upsert_row k v rows in
    if ltb k row.0 then (k, v) ∷ row ∷ rows else if nat_eqb k row.0 then (k, v) ∷ rows else further

-- `raft_meta` by its two keys, and the row of `raft_vote`.
pub record LogStore : Type 0 where
  pub raft_log : Rows
  pub last_purged_log_id : Option Text
  pub committed : Option Text
  pub raft_vote : Option Text

abbrev pub empty_store : LogStore
empty_store = record {
  raft_log = [];
  last_purged_log_id = none;
  committed = none;
  raft_vote = none;
}

-- Which statements of a call fail: the transaction's begin and commit, and the others in order.
pub record Failing : Type 0 where
  pub begin : Bool
  pub statement : ℕ → Bool
  pub commit : Bool

pub data Result (A : Type 0) : Type 0 where
  ok : A → Result A
  err : Result A

pub data Bound : Type 0 where
  included excluded : ℕ → Bound
  unbounded : Bound

unfoldable pub start_of : Bound → ℕ
start_of (included v) = v
start_of (excluded v) = saturating_add64 v 1
start_of unbounded = 0

unfoldable pub end_of : Bound → ℕ
end_of (included v) = saturating_add64 v 1
end_of (excluded v) = v
end_of unbounded = i64_max

unfoldable pub end_bind : ℕ → ℕ
end_bind end_excl = if leb i64_max end_excl then as_i64 i64_max else as_i64 end_excl

unfoldable pub in_range : ℕ → ℕ → ℕ × Text → Bool
in_range from to row = leb from row.0 && ltb row.0 to

-- `Entry`, `LogId` and `Vote` are openraft's. serde_json's functions to a text and back may fail.
module _ {C : Type 0} (to_json : Option C → Option Text)
    (from_json : Text → Option (Option C)) where
  unfoldable pub save_committed : Option C → Failing → LogStore → LogStore × Result (Unit {0})
  save_committed id f s =
      map_or (to_json id) (s, err)
        (λ json. if f.statement 0 then (s, err) else (record s { committed = some json }, ok tt))

  unfoldable pub read_committed : Failing → LogStore → Result (Option C)
  read_committed f s =
      if f.statement 0
      then err
      else map_or s.committed (ok none) (λ json. map_or (from_json json) err (λ id. ok id))

module _ {V : Type 0} (to_json : V → Option Text) (from_json : Text → Option V) where
  unfoldable pub save_vote : V → Failing → LogStore → LogStore × Result (Unit {0})
  save_vote v f s =
      map_or (to_json v) (s, err)
        (λ json. if f.statement 0 then (s, err) else (record s { raft_vote = some json }, ok tt))

  unfoldable pub read_vote : Failing → LogStore → Result (Option V)
  read_vote f s =
      if f.statement 0
      then err
      else map_or s.raft_vote (ok none) (λ json. map_or (from_json json) err (λ v. ok (some v)))

module _ {E : Type 0} (from_json : Text → Option E) where
  unfoldable pub and_read : Option E → Result (List E) → Result (List E)
  and_read none rest = err
  and_read (some e) err = err
  and_read (some e) (ok es) = ok (e ∷ es)

  -- `n` is the number of the row; fetching it may fail, and so may the step after the last one.
  unfoldable pub read_rows : Failing → ℕ → Rows → Result (List E)
  read_rows f n [] = if f.statement n then err else ok []
  read_rows f n (row ∷ rows) =
      let rest = read_rows f (suc n) rows in
      if f.statement n then err else and_read (from_json row.1) rest

  unfoldable pub try_get_log_entries : Bound → Bound → Failing → LogStore → Result (List E)
  try_get_log_entries start finish f s =
      if f.begin
      then err
      else read_rows f 0
          (keep (in_range (as_i64 (start_of start)) (end_bind (end_of finish))) s.raft_log)

module _ {E : Type 0} (index : E → ℕ) (to_json : E → Option Text) where
  -- The loop of `append` in its transaction.
  unfoldable pub insert_entries : Failing → ℕ → List E → Rows → Option Rows
  insert_entries f n [] rows = some rows
  insert_entries f n (e ∷ es) rows = map_or (to_json e) none (λ json.
      if f.statement n
      then none
      else insert_entries f (suc n) es (upsert_row (as_i64 (index e)) json rows))

  -- The callback is called with the result.
  unfoldable pub append : List E → Failing → LogStore → LogStore × Result (Unit {0})
  append es f s =
      if f.begin
      then (s, err)
      else map_or (insert_entries f 0 es s.raft_log) (s, err)
          (λ rows. if f.commit then (s, err) else (record s { raft_log = rows }, ok tt))

-- `truncate` and `purge`, with the index of the log id.
unfoldable pub truncate : ℕ → Failing → LogStore → LogStore × Result (Unit {0})
truncate i f s = if f.statement 0 then (s, err) else (
  record s { raft_log = keep (λ (row : ℕ × Text). not (leb (as_i64 i) row.0)) s.raft_log },
  ok tt,
)

unfoldable pub purge : ℕ → Option Text → Failing → LogStore → LogStore × Result (Unit {0})
purge i id_json f s =
    map_or id_json (s, err)
      (λ json. if f.begin || f.statement 0 || f.statement 1 || f.commit then (s, err) else (
        record s {
          raft_log = keep (λ (row : ℕ × Text). not (leb row.0 (as_i64 i))) s.raft_log;
          last_purged_log_id = some json;
        },
        ok tt,
      ))

-- `SELECT MAX(log_index)`, and the row that has it.
unfoldable pub last_row : Rows → Option (ℕ × Text)
last_row [] = none
last_row (row ∷ rows) = map_or (last_row rows) (some row) (λ further. some further)

module _ {E L : Type 0} (log_id : E → L) (from_json : Text → Option E)
    (id_from_json : Text → Option L) where
  unfoldable pub last_id : Failing → Option L → Option (ℕ × Text) → Result (Option L × Option L)
  last_id f purged none = ok (purged, purged)
  last_id f purged (some row) =
      if f.statement 2
      then err
      else map_or (from_json row.1) err (λ e. ok (purged, some (log_id e)))

  unfoldable pub state_from : Failing → LogStore → Option L → Result (Option L × Option L)
  state_from f s purged = if f.statement 1 then err else last_id f purged (last_row s.raft_log)

  -- The two ids of `LogState`: the last purged one, and the last one.
  unfoldable pub get_log_state : Failing → LogStore → Result (Option L × Option L)
  get_log_state f s =
      if f.statement 0
      then err
      else map_or s.last_purged_log_id (state_from f s none)
          (λ json. map_or (id_from_json json) err (λ id. state_from f s (some id)))
