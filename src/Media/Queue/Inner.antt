-- ===== src/Media/Queue/Inner.antt =====
-- src/cluster/media/live_queue.rs, `impl Inner`: bookkeeping, purges, the age rule, eviction and
-- expired waits. Each returns the new state and the new counters.
use librtmp2_server.Base.{
  ℕ, zero, suc, ◌-◌, Bool, true, false, not, ◌&&◌, ◌||◌, Option, none, some, List, [], ◌∷◌, ◌++◌,
  text_eq, text_ltb, pair_eq, ◌==◌, Map, lookup, insert, remove, keep, any_of, length, map_or,
  is_some, if◌then◌else◌, ltb, leb, nat_eqb, fetch_add_one, saturating_add64,
}
use librtmp2_server.Media.Queue.Defs.{
  LiveQueueConfig, LiveQueueStats, Entry, StreamState, Names, Inner, Reason, stale, pressure,
  evictable, is_critical, is_resync_point, is_droppable, message_names, fresh_state, idle,
  count_drop,
}

-- `e.names()`, and `e.names() == Some((app, stream))`.
abbrev pub names : Entry → Option Names
names e = message_names e.msg

unfoldable pub has_names : Names → Entry → Bool
has_names k e = map_or (names e) false (λ j. j == k)

-- What `state_mut` followed by a write does, and a write behind `get_mut`.
unfoldable pub modify_state : Names → (StreamState → StreamState) → Inner → Inner
modify_state k f g = record g {
  streams = insert k (f (map_or (lookup k g.streams) fresh_state (λ st. st))) g.streams;
}

unfoldable pub update_state : Names → (StreamState → StreamState) → Inner → Inner
update_state k f g =
    map_or (lookup k g.streams) g (λ st. record g { streams = insert k (f st) g.streams })

-- `st.awaiting_since.get_or_insert(now)`, and `st.awaiting_since = None`.
unfoldable pub start_waiting : ℕ → StreamState → StreamState
start_waiting now st = record st { awaiting_since = map_or st.awaiting_since (some now) some }

unfoldable pub stop_waiting : StreamState → StreamState
stop_waiting st = record st { awaiting_since = none }

unfoldable pub prune_idle : Names → Inner → Inner
prune_idle k g =
    map_or (lookup k g.streams) g
      (λ st. if idle st then record g { streams = remove k g.streams } else g)

unfoldable pub is_awaiting : Names → Inner → Bool
is_awaiting k g = map_or (lookup k g.streams) false (λ st. is_some st.awaiting_since)

-- One frame of `size` bytes left the stream.
unfoldable pub forget_frame : Entry → StreamState → StreamState
forget_frame e st = record st {
  queued_frames = st.queued_frames - 1;
  evictable_bytes = if evictable e.kind then st.evictable_bytes - e.size else st.evictable_bytes;
}

unfoldable pub account_removed : Entry → Inner → Inner
account_removed e g =
    let g' = record g { bytes = g.bytes - e.size } in
    map_or (names e) g' (λ k. prune_idle k (update_state k (forget_frame e) g'))

-- The loop over the removed entries.
unfoldable pub account_all : Reason → List Entry → Inner → LiveQueueStats → Inner × LiveQueueStats
account_all reason [] g s = (g, s)
account_all reason (e ∷ es) g s =
    account_all reason es (account_removed e g) (count_drop s e.kind reason)

unfoldable pub purge_hit : Names → Entry → Bool
purge_hit k e = evictable e.kind && has_names k e

unfoldable pub purge_stream : Names → Reason → Inner → LiveQueueStats → Inner × LiveQueueStats
purge_stream k reason g s =
    account_all reason (keep (purge_hit k) g.entries)
      (record g { entries = keep (λ e. not (purge_hit k e)) g.entries }) s

-- `iter().position(p)`, and the entries whose index and value pass a test.
unfoldable pub position {ℓ} : {A : Type ℓ} → (A → Bool) → List A → Option ℕ
position p [] = none
position p (x ∷ xs) =
    let rest = map_or (position p xs) none (λ i. some (suc i)) in if p x then some 0 else rest

unfoldable pub keep_at {ℓ} : {A : Type ℓ} → (ℕ → A → Bool) → ℕ → List A → List A
keep_at p i [] = []
keep_at p i (x ∷ xs) = let rest = keep_at p (suc i) xs in if p i x then x ∷ rest else rest

unfoldable pub is_fresh_resync : Names → ℕ → ℕ → Entry → Bool
is_fresh_resync k now max_age e =
    has_names k e && is_resync_point e.kind && leb (now - e.at) max_age

-- `before_fresh && evictable && named`, where `fresh` is the index of the fresh resync point.
unfoldable pub stale_hit : Names → Option ℕ → ℕ → Entry → Bool
stale_hit k fresh i e = map_or fresh true (λ j. ltb i j) && evictable e.kind && has_names k e

-- The result `(fresh, skipped)` stands behind the state and the counters.
unfoldable pub purge_stale_stream :
    Names → ℕ → ℕ → Inner → LiveQueueStats → (Inner × LiveQueueStats) × (Bool × Bool)
purge_stale_stream k now max_age g s =
    let fresh = position (is_fresh_resync k now max_age) g.entries in
    let removed = keep_at (stale_hit k fresh) 0 g.entries in
    let kept = keep_at (λ i e. not (stale_hit k fresh i e)) 0 g.entries in
    (
      account_all stale removed (record g { entries = kept }) s,
      (is_some fresh, any_of (λ e. is_droppable e.kind) removed),
    )

-- `(app, stream) < (a, s)`.
unfoldable pub names_ltb : Names → Names → Bool
names_ltb (a, s) (b, t) = text_ltb a b || ((a == b) && text_ltb s t)

-- One round of the search: is this stream better than the best so far?
unfoldable pub heavier : Names × StreamState → Option (ℕ × Names) → Option (ℕ × Names)
heavier (k, st) best =
    if nat_eqb st.evictable_bytes 0
    then best
    else map_or best (some (st.evictable_bytes, k)) (λ b.
      if ltb b.0 st.evictable_bytes || (nat_eqb st.evictable_bytes b.0 && names_ltb k b.1)
      then some (st.evictable_bytes, k)
      else best)

unfoldable pub heaviest_from : Option (ℕ × Names) → Map Names StreamState → Option (ℕ × Names)
heaviest_from best [] = best
heaviest_from best (x ∷ m) = heaviest_from (heavier x best) m

unfoldable pub heaviest_evictable : Inner → Option Names
heaviest_evictable g = map_or (heaviest_from none g.streams) none (λ b. some b.1)

-- The names of the evictable entries at the head that are older than `max_age`, each once.
unfoldable pub stale_names : ℕ → ℕ → List Entry → List Names → List Names
stale_names now max_age [] acc = acc
stale_names now max_age (e ∷ es) acc =
    let acc' =
      map_or (names e) acc (λ k.
        if evictable e.kind && not (any_of (λ j. j == k) acc) then acc ++ (k ∷ []) else acc) in
    let rest = stale_names now max_age es acc' in if leb (now - e.at) max_age then acc else rest

-- `resync_count.fetch_add(1)`.
unfoldable pub count_resync : LiveQueueStats → LiveQueueStats
count_resync s = record s { resync_count = fetch_add_one s.resync_count }

-- A purged stream: resynced already, or waiting from now on.
unfoldable pub settle_aged :
    Names → ℕ → Inner × LiveQueueStats → Bool × Bool → Inner × LiveQueueStats
settle_aged k now (g, s) (true, skipped) =
    (prune_idle k (update_state k stop_waiting g), if skipped then count_resync s else s)
settle_aged k now (g, s) (false, skipped) = (prune_idle k (modify_state k (start_waiting now) g), s)

unfoldable pub age_out :
    Names → ℕ → LiveQueueConfig → Inner → LiveQueueStats → Inner × LiveQueueStats
age_out k now cfg g s =
    let (after, flags) = purge_stale_stream k now cfg.max_media_age g s in
    settle_aged k now after flags

unfoldable pub age_out_all :
    List Names → ℕ → LiveQueueConfig → Inner → LiveQueueStats → Inner × LiveQueueStats
age_out_all [] now cfg g s = (g, s)
age_out_all (k ∷ ks) now cfg g s =
    let (g', s') = age_out k now cfg g s in age_out_all ks now cfg g' s'

-- `entries.front()` is older than the age bound.
unfoldable pub head_old : ℕ → LiveQueueConfig → List Entry → Bool
head_old now cfg [] = false
head_old now cfg (e ∷ es) = ltb cfg.max_media_age (now - e.at)

unfoldable pub enforce_age : ℕ → LiveQueueConfig → Inner → LiveQueueStats → Inner × LiveQueueStats
enforce_age now cfg g s =
    if head_old now cfg g.entries
    then age_out_all (stale_names now cfg.max_media_age g.entries []) now cfg g s
    else (g, s)

-- `entries.remove(entries.position(p))`: the entry, and the others.
unfoldable pub take_first {ℓ} : {A : Type ℓ} → (A → Bool) → List A → Option (A × List A)
take_first p [] = none
take_first p (x ∷ xs) =
    let rest = map_or (take_first p xs) none (λ r. some (r.0, x ∷ r.1)) in
    if p x then some (x, xs) else rest

unfoldable pub fits : ℕ → LiveQueueConfig → Inner → Bool
fits size cfg g =
    ltb (length g.entries) cfg.max_messages && leb (saturating_add64 g.bytes size) cfg.max_bytes

unfoldable pub flag_reinit : StreamState → StreamState
flag_reinit st = record st { needs_reinit = true }

-- The oldest critical frame `e` goes, and its stream is flagged.
unfoldable pub evict_critical : Entry → List Entry → Inner → Inner
evict_critical e rest g =
    let g' = record g { entries = rest } in
    account_removed e
      (map_or (names e) g' (λ k. record (modify_state k flag_reinit g') { reinit_dirty = true }))

-- The loop on fuel; `none` means that the fuel ran out.
unfoldable pub make_room :
    ℕ → ℕ → ℕ → LiveQueueConfig → Inner → LiveQueueStats → Option (Bool × Inner × LiveQueueStats)
make_room zero size now cfg g s = none
make_room (suc fuel) size now cfg g s =
    if fits size cfg g then some (true, g, s) else elim (heaviest_evictable g) [
      | some k ↦
          let (g', s') = purge_stream k pressure g s in
          make_room fuel size now cfg (modify_state k (start_waiting now) g') s'
      | none ↦ elim (take_first (λ (e : Entry). is_critical e.kind) g.entries) [
        | none ↦ some (false, g, s)
        | some (e, rest) ↦
            make_room fuel size now cfg (evict_critical e rest g) (count_drop s e.kind pressure)
      ]
    ]

unfoldable pub wait_expired : ℕ → LiveQueueConfig → Names × StreamState → Bool
wait_expired now cfg (k, st) =
    map_or st.awaiting_since false (λ t. leb cfg.resync_wait_max (now - t))

unfoldable pub release_all : Map Names StreamState → Inner → LiveQueueStats → Inner × LiveQueueStats
release_all [] g s = (g, s)
release_all ((k, _) ∷ rest) g s =
    release_all rest (prune_idle k (update_state k stop_waiting g))
      (record s { resync_timeouts = fetch_add_one s.resync_timeouts })

unfoldable pub release_expired_waits :
    ℕ → LiveQueueConfig → Inner → LiveQueueStats → Inner × LiveQueueStats
release_expired_waits now cfg g s = release_all (keep (wait_expired now cfg) g.streams) g s
