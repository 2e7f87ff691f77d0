-- ===== src/Cluster/LogStore/Tests.antt =====
-- The log store on small inputs: an entry is its index and a term.
use librtmp2_server.Base.{
  ℕ, ◌≡◌, refl, sym, ap, arith, true, false, Option, none, some, List, [], ◌∷◌, Text, some_inj,
  keep, ltb,
}
use librtmp2_server.Cluster.LogStore.Store.{
  state_from, last_id, last_row, append, insert_entries, upsert_row, truncate, purge, save_vote,
  save_committed, start_of, end_of, empty_store, Failing, ok, included, try_get_log_entries,
  get_log_state, read_vote, read_committed,
}
use librtmp2_server.Cluster.LogStore.Log.{
  run_write, spec_write, spec_append, Write, appending, truncating, purging,
}
use librtmp2_server.Cluster.LogStore.Reads.{spec_purged, spec_writes, run_writes, run_writes-Reads}
use librtmp2_server.Cluster.LogStore.Answered.{is_ok, purged_to}
use librtmp2_server.Cluster.LogStore.Votes.{
  run_call, remember, remember_all, writing, committing, voting, run_calls, run_calls-Remembers,
  Call,
}

abbrev index : ℕ × ℕ → ℕ
index e = e.0

abbrev to_json : ℕ × ℕ → Option Text
to_json e = some (e.0 ∷ e.1 ∷ [])

abbrev from_json : Text → Option (ℕ × ℕ)
from_json [] = none
from_json (a ∷ []) = none
from_json (a ∷ b ∷ rest) = some (a, b)

abbrev id_to_json : Option ℕ → Option Text
id_to_json none = some []
id_to_json (some i) = some (i ∷ [])

abbrev id_from_json : Text → Option (Option ℕ)
id_from_json [] = some none
id_from_json (i ∷ rest) = some (some i)

entry_trip : (e : ℕ × ℕ) (t : Text) → to_json e ≡ some t → from_json t ≡ some e
entry_trip (a, b) t is = ap from_json (sym (some_inj is))

id_trip : (id : Option ℕ) (t : Text) → id_to_json id ≡ some t → id_from_json t ≡ some id
id_trip none t is = ap id_from_json (sym (some_inj is))
id_trip (some i) t is = ap id_from_json (sym (some_inj is))

abbrev fine : Failing
fine = record { begin = false; statement = λ n. false; commit = false }

-- The second statement and the later ones fail.
abbrev only_first : Failing
only_first = record { begin = false; statement = λ n. ltb 0 n; commit = false }

abbrev broken : Failing
broken = record { begin = true; statement = λ n. true; commit = true }

abbrev writes : List (Write (ℕ × ℕ) × Failing)
writes =
    (appending ((4, 1) ∷ (5, 1) ∷ (6, 1) ∷ []), fine)
    ∷ (appending ((6, 2) ∷ (7, 2) ∷ []), only_first)
    ∷ (truncating 6, fine)
    ∷ (appending ((6, 3) ∷ []), fine)
    ∷ (purging 4 (some (4 ∷ [])), fine)
    ∷ []

-- The entry 6 of the second term is not kept.
-- One more purge, which fails when it has recorded the id.
run_writes-Reads_example :
    (try_get_log_entries from_json
        (included 3)
        (included 6)
        fine
        (run_writes index to_json from_json writes empty_store)
      ≡ ok ((5, 1) ∷ (6, 3) ∷ []))
    × ((run_writes index to_json from_json writes empty_store).last_purged_log_id ≡ some (4 ∷ []))
    × ((run_write index to_json from_json
          (purging 5 (some (5 ∷ [])))
          only_first
          (run_writes index to_json from_json writes empty_store)).0
        ≡ run_writes index to_json from_json writes empty_store)
unfolding run_writes run_write append insert_entries upsert_row truncate purge start_of end_of keep
    spec_writes spec_write spec_append spec_purged purged_to is_ok
run_writes-Reads_example =
    run_writes-Reads index to_json from_json writes (included 3) (included 6) fine
      (purging 5 (some (5 ∷ []))) only_first entry_trip
      (
        (omega arith, (omega arith, (omega arith, tt))),
        ((omega arith, (omega arith, tt)), (omega arith, ((omega arith, tt), (omega arith, tt)))),
      )
      (omega arith) (omega arith) (refl, λ n. refl)

log_state :
    get_log_state
      (λ (e : ℕ × ℕ). some e.0)
      from_json
      id_from_json
      fine
      (run_writes index to_json from_json writes empty_store)
    ≡ ok (some (some 4), some (some 6))
unfolding get_log_state state_from last_id last_row run_writes run_write append insert_entries
    upsert_row truncate purge keep
log_state = refl

abbrev calls :
    List (Call index to_json from_json id_to_json id_from_json id_to_json id_from_json × Failing)
calls =
    (voting (some 1), fine)
    ∷ (writing (appending ((4, 1) ∷ [])), fine)
    ∷ (committing (some 4), fine)
    ∷ (voting (some 2), broken)
    ∷ (committing none, broken)
    ∷ (writing (truncating 0), fine)
    ∷ []

run_calls-Remembers_example :
    (read_vote id_to_json id_from_json fine (
        run_calls index to_json from_json id_to_json id_from_json id_to_json id_from_json calls
          empty_store)
      ≡ ok (some (some 1)))
    × (read_committed id_to_json id_from_json fine (
          run_calls index to_json from_json id_to_json id_from_json id_to_json id_from_json calls
            empty_store)
        ≡ ok (some 4))
unfolding run_calls run_call run_write save_vote save_committed append insert_entries upsert_row
    truncate keep remember_all remember is_ok
run_calls-Remembers_example =
    run_calls-Remembers index to_json from_json id_to_json id_from_json id_to_json id_from_json
      calls fine id_trip id_trip refl
