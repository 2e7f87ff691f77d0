-- ===== src/RateLimit/Limiter.antt =====
-- `HttpRateLimitConfig`, `Bucket`, and the functions of `RateLimiter` on the table of buckets.
use librtmp2_server.Base.{
  ℕ, ◌-◌, ◌*◌, Bool, true, false, not, Option, none, some, List, [], ◌∷◌, ◌++◌, Text, Map, lookup,
  insert, remove, keep, length, map_or, if◌then◌else◌, ltb, leb, nat_eqb, text_eq,
}

abbrev pub max_tracked_keys : ℕ
max_tracked_keys = 10_000

pub record HttpRateLimitConfig : Type 0 where
  pub window : ℕ
  pub api_max : ℕ
  pub stats_max : ℕ
  pub default_max : ℕ

abbrev pub second : ℕ
second = 1_000_000_000

abbrev pub default_config : HttpRateLimitConfig
default_config = record { window = 60 * second; api_max = 120; stats_max = 30; default_max = 60 }

pub record Bucket : Type 0 where
  pub entries : List ℕ
  pub max_requests : ℕ

-- `RateLimiter::inner`.
abbrev pub Buckets : Type 0
Buckets = Map Text Bucket

-- A time stamp that is later than `now` counts as one in the window.
unfoldable pub timestamp_in_window : ℕ → ℕ → ℕ → Bool
timestamp_in_window window now t = if leb t now then ltb (now - t) window else true

unfoldable pub active_request_count : ℕ → List ℕ → ℕ → ℕ
active_request_count window entries now = length (keep (timestamp_in_window window now) entries)

-- The two `retain` of `purge_expired`, one after the other.
unfoldable pub retain_entries : ℕ → ℕ → Buckets → Buckets
retain_entries window now [] = []
retain_entries window now ((k, b) ∷ g) =
    (k, record b { entries = keep (timestamp_in_window window now) b.entries })
    ∷ retain_entries window now g

unfoldable pub purge_expired : ℕ → Buckets → ℕ → Buckets
purge_expired window g now =
    keep (λ (x : Text × Bucket). not (nat_eqb (length x.1.entries) 0)) (retain_entries window now g)

-- `entries.last()`, with the second reading of the clock where there is none.
unfoldable pub last_or : ℕ → List ℕ → ℕ
last_or late [] = late
last_or late (t ∷ ts) = last_or t ts

-- A client below its own cap.
unfoldable pub eligible : ℕ → ℕ → Bucket → Bool
eligible window now b = ltb (active_request_count window b.entries now) b.max_requests

-- The first of the keys whose last time stamp is the smallest.
unfoldable pub oldest_from : ℕ → Text × Bucket → Buckets → Text
oldest_from late best [] = best.0
oldest_from late best (x ∷ g) =
    oldest_from late
      (if ltb (last_or late x.1.entries) (last_or late best.1.entries) then x else best) g

unfoldable pub oldest_key : ℕ → Buckets → Option Text
oldest_key late [] = none
oldest_key late (x ∷ g) = some (oldest_from late x g)

-- `late` is what the clock says if it is asked again.
unfoldable pub evict_oldest_eligible_client : ℕ → Buckets → ℕ → ℕ → Buckets × Bool
evict_oldest_eligible_client window g now late =
    map_or (oldest_key late (keep (λ (x : Text × Bucket). eligible window now x.1) g)) (g, false)
      (λ k. (remove k g, true))

-- The end of `check`: room for a new bucket, and the bucket.
unfoldable pub insert_fresh : Text → ℕ → ℕ → Buckets × Bool → Buckets × Bool
insert_fresh key max_requests now (g, false) = (g, false)
insert_fresh key max_requests now (g, true) =
    (insert key (record { entries = now ∷ []; max_requests = max_requests }) g, true)

unfoldable pub room_for_key : ℕ → ℕ → ℕ → Buckets → Buckets × Bool
room_for_key window now late g =
    let purged = purge_expired window g now in
    if not (leb max_tracked_keys (length g))
    then (g, true)
    else if leb max_tracked_keys (length purged)
    then evict_oldest_eligible_client window purged now late
    else (purged, true)

-- A client that has a bucket; `kept` are its entries in the window.
unfoldable pub check_tracked : ℕ → Text → ℕ → ℕ → ℕ → Bucket → Buckets → Buckets × Bool
check_tracked window key max_requests now late b g =
    let kept = keep (timestamp_in_window window now) b.entries in
    let pruned = insert key (record b { entries = kept }) g in
    if leb max_requests (length kept)
    then (pruned, false)
    else if not (nat_eqb (length kept) 0)
    then (insert key (record b { entries = kept ++ now ∷ [] }) g, true)
    else insert_fresh key max_requests now (room_for_key window now late (remove key pruned))

unfoldable pub check : ℕ → Text → ℕ → ℕ → ℕ → Buckets → Buckets × Bool
check window key max_requests now late g =
    if nat_eqb max_requests 0
    then (g, false)
    else map_or (lookup key g) (insert_fresh key max_requests now (room_for_key window now late g))
        (λ b. check_tracked window key max_requests now late b g)
