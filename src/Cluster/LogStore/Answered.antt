-- ===== src/Cluster/LogStore/Answered.antt =====
-- What a write does to the purged id, and that it does nothing if it answers an error.
use librtmp2_server.Base.{
  ℕ, ◌≡◌, refl, ap, Bool, true, false, ◌||◌, map_or, Option, none, some, List, Text, if◌then◌else◌,
  if-elim,
}
use librtmp2_server.Cluster.LogStore.Store.{
  Rows, LogStore, Failing, Result, ok, err, insert_entries, append, truncate, purge,
}
use librtmp2_server.Cluster.LogStore.Log.{Write, appending, truncating, purging, run_write}

unfoldable pub is_ok : Result (Unit {0}) → Bool
is_ok (ok u) = true
is_ok err = false

module _ {E : Type 0} (index : E → ℕ) (to_json : E → Option Text)
    (from_json : Text → Option E) where
  unfoldable pub purged_to : Write E → Option Text → Option Text
  purged_to (appending es) old = old
  purged_to (truncating n) old = old
  purged_to (purging n json) old = json

  -- Case by case.
  abbrev Cases : Write E → LogStore → LogStore × Result (Unit {0}) → Type 0
  Cases w s (now, ok done) = now.last_purged_log_id ≡ purged_to w s.last_purged_log_id
  Cases w s (now, err) = now ≡ s

  rows-Cases :
      (es : List E) (f : Failing) (s : LogStore) (o : Option Rows)
      → Cases (appending es) s (
          map_or o
            (s, err)
            (λ rows. if f.commit then (s, err) else (record s { raft_log = rows }, ok tt)))
  unfolding purged_to
  rows-Cases es f s none = refl
  rows-Cases es f s (some rows) = if-elim (Cases (appending es) s) f.commit (λ g. refl) (λ g. refl)

  write-Cases :
      (w : Write E) (f : Failing) (s : LogStore)
      → Cases w s (run_write index to_json from_json w f s)
  unfolding run_write append truncate purge purged_to
  write-Cases (appending es) f s =
      if-elim (Cases (appending es) s) f.begin (λ e. refl)
        (λ e. rows-Cases es f s (insert_entries index to_json f 0 es s.raft_log))
  write-Cases (truncating n) f s =
      if-elim (Cases (truncating n) s) (f.statement 0) (λ e. refl) (λ e. refl)
  write-Cases (purging n none) f s = refl
  write-Cases (purging n (some json)) f s =
      if-elim (Cases (purging n (some json)) s)
        (f.begin || f.statement 0 || f.statement 1 || f.commit) (λ e. refl) (λ e. refl)

  abbrev pub Answered : Write E → LogStore → LogStore × Result (Unit {0}) → Type 0
  Answered w s (now, answer) =
      (now.last_purged_log_id
        ≡ (if is_ok answer then purged_to w s.last_purged_log_id else s.last_purged_log_id))
      × (now ≡ (if is_ok answer then now else s))

  Cases-Answered :
      (w : Write E) (s : LogStore) (r : LogStore × Result (Unit {0})) → Cases w s r → Answered w s r
  unfolding is_ok
  Cases-Answered w s (now, ok done) h = (h, refl)
  Cases-Answered w s (now, err) h = (ap LogStore.last_purged_log_id h, h)

  pub write-Answered :
      (w : Write E) (f : Failing) (s : LogStore)
      → Answered w s (run_write index to_json from_json w f s)
  write-Answered w f s =
      Cases-Answered w s (run_write index to_json from_json w f s) (write-Cases w f s)
