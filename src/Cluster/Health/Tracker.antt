-- ===== src/Cluster/Health/Tracker.antt =====
-- `NodeHealthState` and `HealthTracker`, with the clock as an argument.
use librtmp2_server.Base.{
  ℕ, ◌+◌, ◌*◌, ◌-◌, ◌^◌, Bool, true, false, not, ◌&&◌, Option, none, some, List, [], ◌∷◌, map, Text,
  text_eqb, Map, lookup, insert, remove, keep, any_of, map_or, is_some, if◌then◌else◌, ltb, leb,
  nat_eqb, nat_eq,
}

pub data NodeHealthState : Type 0 where
  ready draining down isolated joining learner leaving : NodeHealthState

unfoldable pub as_str : NodeHealthState → Text
as_str ready = b'R' ∷ b'E' ∷ b'A' ∷ b'D' ∷ b'Y' ∷ []
as_str draining = b'D' ∷ b'R' ∷ b'A' ∷ b'I' ∷ b'N' ∷ b'I' ∷ b'N' ∷ b'G' ∷ []
as_str down = b'D' ∷ b'O' ∷ b'W' ∷ b'N' ∷ []
as_str isolated = b'I' ∷ b'S' ∷ b'O' ∷ b'L' ∷ b'A' ∷ b'T' ∷ b'E' ∷ b'D' ∷ []
as_str joining = b'J' ∷ b'O' ∷ b'I' ∷ b'N' ∷ b'I' ∷ b'N' ∷ b'G' ∷ []
as_str learner = b'L' ∷ b'E' ∷ b'A' ∷ b'R' ∷ b'N' ∷ b'E' ∷ b'R' ∷ []
as_str leaving = b'L' ∷ b'E' ∷ b'A' ∷ b'V' ∷ b'I' ∷ b'N' ∷ b'G' ∷ []

abbrev pub states : List NodeHealthState
states = ready ∷ draining ∷ down ∷ isolated ∷ joining ∷ learner ∷ leaving ∷ []

-- The arms in their order; each tests for the text that `as_str` gives.
unfoldable pub parse_arms : Text → List NodeHealthState → Option NodeHealthState
parse_arms s [] = none
parse_arms s (state ∷ rest) = if text_eqb s (as_str state) then some state else parse_arms s rest

unfoldable pub parse : Text → Option NodeHealthState
parse s = parse_arms s states

unfoldable pub sanitized : Option NodeHealthState → NodeHealthState
sanitized none = ready
sanitized (some ready) = ready
sanitized (some draining) = draining
sanitized (some down) = ready
sanitized (some isolated) = ready
sanitized (some joining) = joining
sanitized (some learner) = learner
sanitized (some leaving) = leaving

unfoldable pub from_heartbeat : Text → NodeHealthState
from_heartbeat advertised = sanitized (parse advertised)

unfoldable pub is_down : NodeHealthState → Bool
is_down ready = false
is_down draining = false
is_down down = true
is_down isolated = false
is_down joining = false
is_down learner = false
is_down leaving = false

-- `F` is the type of the load.
pub record PeerHealth (F : Type 0) : Type 0 where
  pub state : NodeHealthState
  pub load : F
  pub last_seen : ℕ
  pub control_addr : Text
  pub media_addr : Text

pub record HealthTracker (F : Type 0) : Type 0 where
  pub local : NodeHealthState
  pub peers : Map ℕ (PeerHealth F)
  pub miss_limit : ℕ
  pub down_since : Map ℕ ℕ
  pub ownership_released : List ℕ

unfoldable pub without : ℕ → List ℕ → List ℕ
without id ids = keep (λ x. not (nat_eqb x id)) ids

-- `entry(id).or_insert(now)`.
unfoldable pub arm : ℕ → ℕ → Map ℕ ℕ → Map ℕ ℕ
arm id now since = if is_some (lookup id since) then since else insert id now since

unfoldable pub is_due : ℕ → ℕ → List ℕ → ℕ × ℕ → Bool
is_due grace now released row =
    not (any_of (λ x. nat_eqb x row.0) released) && leb grace (now - row.1)

module _ {F : Type 0} where
  -- The greater of five heartbeats, saturated at the longest `Duration`, and 2 seconds.
  unfoldable pub new_tracker : ℕ → HealthTracker F
  new_tracker heartbeat = record {
    local = joining;
    peers = [];
    miss_limit =
        if ltb (heartbeat * 5) 2_000_000_000
        then 2_000_000_000
        else if ltb (2 ^ 64 * 1_000_000_000 - 1) (heartbeat * 5)
        then 2 ^ 64 * 1_000_000_000 - 1
        else heartbeat * 5;
    down_since = [];
    ownership_released = [];
  }

  unfoldable pub set_local : NodeHealthState → HealthTracker F → HealthTracker F
  set_local state t = record t { local = state }

  -- `seen` is the last reading of the clock but one, `now` the last one.
  unfoldable pub note_peer :
      ℕ
      → NodeHealthState
      → F
      → Option Text
      → Option Text
      → ℕ
      → ℕ
      → HealthTracker F
      → HealthTracker F
  note_peer id state load control media seen now t = record t {
    peers =
        insert id
          record {
            state = state;
            load = load;
            last_seen = seen;
            control_addr =
                map_or control (map_or (lookup id t.peers) [] (λ p. p.control_addr)) (λ a. a);
            media_addr = map_or media (map_or (lookup id t.peers) [] (λ p. p.media_addr)) (λ a. a);
          }
          t.peers;
    down_since = if is_down state then arm id now t.down_since else remove id t.down_since;
    ownership_released =
        if is_down state then t.ownership_released else without id t.ownership_released;
  }

  unfoldable pub remove_peer : ℕ → HealthTracker F → HealthTracker F
  remove_peer id t = record t {
    peers = remove id t.peers;
    down_since = remove id t.down_since;
    ownership_released = without id t.ownership_released;
  }

  unfoldable pub is_stale : ℕ → ℕ → PeerHealth F → Bool
  is_stale miss now p = not (is_down p.state) && ltb miss (now - p.last_seen)

  -- The loop over the peers: their new rows, the instants, and the ids that are newly down.
  unfoldable pub sweep :
      ℕ → ℕ → Map ℕ (PeerHealth F) → Map ℕ ℕ → Map ℕ (PeerHealth F) × Map ℕ ℕ × List ℕ
  sweep miss now [] since = ([], since, [])
  sweep miss now ((id, p) ∷ ps) since =
      let stale = is_stale miss now p in
      let (rows, later, ids) = sweep miss now ps (if stale then arm id now since else since) in
      if stale
      then ((id, record p { state = down }) ∷ rows, later, id ∷ ids)
      else ((id, p) ∷ rows, later, ids)

  unfoldable pub sweep_stale : ℕ → HealthTracker F → HealthTracker F × List ℕ
  sweep_stale now t =
      let (rows, later, ids) = sweep t.miss_limit now t.peers t.down_since in
      (record t { peers = rows; down_since = later }, ids)

  unfoldable pub peers_ready_for_ownership_release : ℕ → ℕ → HealthTracker F → List ℕ
  peers_ready_for_ownership_release grace now t =
      map (λ (row : ℕ × ℕ). row.0) (keep (is_due grace now t.ownership_released) t.down_since)

  unfoldable pub mark_ownership_released : ℕ → HealthTracker F → HealthTracker F
  mark_ownership_released id t = record t {
    ownership_released =
        if any_of (λ x. nat_eqb x id) t.ownership_released
        then t.ownership_released
        else id ∷ t.ownership_released;
  }

  unfoldable pub peer_state : ℕ → HealthTracker F → Option NodeHealthState
  peer_state id t = map_or (lookup id t.peers) none (λ p. some p.state)

  unfoldable pub peer_report_stale : ℕ → ℕ → HealthTracker F → Bool
  peer_report_stale id now t =
      map_or (lookup id t.peers) false
        (λ p. if is_down p.state then true else ltb t.miss_limit (now - p.last_seen))

  unfoldable pub alive_voters : List ℕ → ℕ → HealthTracker F → ℕ
  alive_voters [] me t = 0
  alive_voters (id ∷ ids) me t =
      let rest = alive_voters ids me t in
      let counts =
        if nat_eqb id me
        then not (is_down t.local)
        else map_or (lookup id t.peers) false (λ p. not (is_down p.state)) in
      if counts then 1 + rest else rest
