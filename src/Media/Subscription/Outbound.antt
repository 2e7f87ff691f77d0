-- ===== src/Media/Subscription/Outbound.antt =====
-- `OutboundSubscriptions`: which local sessions hold a subscription to a stream of another node.
use librtmp2_server.Base.{
  ℕ, Bool, true, false, not, ◌&&◌, List, [], ◌∷◌, map, Text, Map, lookup, insert, keep, any_of,
  map_or, is_some, if◌then◌else◌, nat_eqb, text_eqb, text_eq, nat_eq, pair_eq, length,
}
use librtmp2_server.Base.{remove as remove_key}
use librtmp2_server.Media.Subscription.Inbound.{Key}

-- `owners` is a set: a list without repetitions.
pub record OutboundEntry : Type 0 where
  pub owners : List Text
  pub wired : Bool

abbrev pub default_outbound : OutboundEntry
default_outbound = record { owners = []; wired = false }

abbrev pub OutboundSubscriptions : Type 0
OutboundSubscriptions = Map Key OutboundEntry

abbrev pub new : OutboundSubscriptions
new = []

-- `HashSet::contains`, `insert` and `remove`.
unfoldable pub contains : Text → List Text → Bool
contains owner set = any_of (λ (x : Text). text_eqb x owner) set

unfoldable pub with_owner : Text → List Text → List Text
with_owner owner set = if contains owner set then set else owner ∷ set

unfoldable pub without_owner : Text → List Text → List Text
without_owner owner set = keep (λ (x : Text). not (text_eqb x owner)) set

-- `entry(key).or_default()`.
unfoldable pub entry_or_default : Key → OutboundSubscriptions → OutboundEntry
entry_or_default key t = map_or (lookup key t) default_outbound (λ e. e)

unfoldable pub add : Text → Key → OutboundSubscriptions → OutboundSubscriptions × Bool
add owner key t =
    let e = entry_or_default key t in
    let owners = with_owner owner e.owners in
    (
      insert key (record e { owners = owners }) t,
      not (contains owner e.owners) && nat_eqb (length owners) 1,
    )

unfoldable pub release :
    Text → Key → OutboundEntry → OutboundSubscriptions → OutboundSubscriptions × Bool
release owner key e t =
    let owners = without_owner owner e.owners in
    if not (contains owner e.owners)
    then (t, false)
    else if nat_eqb (length owners) 0
    then (remove_key key t, true)
    else (insert key (record e { owners = owners }) t, false)

unfoldable pub remove : Text → Key → OutboundSubscriptions → OutboundSubscriptions × Bool
remove owner key t = map_or (lookup key t) (t, false) (λ e. release owner key e t)

unfoldable pub remove_if_sole : Text → Key → OutboundSubscriptions → OutboundSubscriptions × Bool
remove_if_sole owner key t =
    if map_or (lookup key t) false (λ e. nat_eqb (length e.owners) 1 && contains owner e.owners)
    then (remove_key key t, true)
    else (t, false)

unfoldable pub ref_count : Key → OutboundSubscriptions → ℕ
ref_count key t = map_or (lookup key t) 0 (λ e. length e.owners)

unfoldable pub has : Key → OutboundSubscriptions → Bool
has key t = is_some (lookup key t)

unfoldable pub remove_all : Key → OutboundSubscriptions → OutboundSubscriptions × Bool
remove_all key t = (remove_key key t, has key t)

unfoldable pub is_wired : Key → OutboundSubscriptions → Bool
is_wired key t = map_or (lookup key t) false (λ e. e.wired)

unfoldable pub set_wired : Key → Bool → OutboundSubscriptions → OutboundSubscriptions
set_wired key wired t = map_or (lookup key t) t (λ e. insert key (record e { wired = wired }) t)

unfoldable pub clear_wired : ℕ → OutboundSubscriptions → OutboundSubscriptions
clear_wired peer [] = []
clear_wired peer ((k, e) ∷ t) =
    (k, (if nat_eqb k.0 peer then record e { wired = false } else e)) ∷ clear_wired peer t

unfoldable pub peers_for_stream : Text → Text → OutboundSubscriptions → List ℕ
peers_for_stream app stream t =
    map (λ (x : Key × OutboundEntry). x.0.0)
      (keep (λ (x : Key × OutboundEntry). text_eqb x.0.1.0 app && text_eqb x.0.1.1 stream) t)

unfoldable pub streams_for_peer : ℕ → OutboundSubscriptions → List (Text × Text)
streams_for_peer peer t =
    map (λ (x : Key × OutboundEntry). x.0.1)
      (keep (λ (x : Key × OutboundEntry). nat_eqb x.0.0 peer) t)

unfoldable pub clear_peer : ℕ → OutboundSubscriptions → OutboundSubscriptions
clear_peer peer t = keep (λ (x : Key × OutboundEntry). not (nat_eqb x.0.0 peer)) t

unfoldable pub count : OutboundSubscriptions → ℕ
count t = length t

-- The calls that change the table, and what they answer.
pub data Call : Type 0 where
  adding removing removing_sole : Text → Key → Call
  removing_all : Key → Call
  wiring : Key → Bool → Call
  unwiring clearing_peer : ℕ → Call

unfoldable pub run_call : Call → OutboundSubscriptions → OutboundSubscriptions × Bool
run_call (adding owner key) t = add owner key t
run_call (removing owner key) t = remove owner key t
run_call (removing_sole owner key) t = remove_if_sole owner key t
run_call (removing_all key) t = remove_all key t
run_call (wiring key wired) t = (set_wired key wired t, false)
run_call (unwiring peer) t = (clear_wired peer t, false)
run_call (clearing_peer peer) t = (clear_peer peer t, false)
