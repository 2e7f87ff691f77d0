-- ===== src/Media/Subscription/Inbound.antt =====
-- `SubscriptionTable`: how often a peer is subscribed to a stream that this node serves.
use librtmp2_server.Base.{
  ℕ, ◌+◌, ◌-◌, ◌%◌, Bool, true, false, not, ◌&&◌, Option, none, some, List, [], ◌∷◌, map, Text, Map,
  lookup, insert, keep, map_or, is_some, if◌then◌else◌, ltb, nat_eqb, text_eqb, text_eq, nat_eq,
  pair_eq, length, u64_mod,
}
use librtmp2_server.Base.{remove as remove_key}

-- The peer, the app and the stream.
abbrev pub Key : Type 0
Key = ℕ × (Text × Text)

abbrev pub SubscriptionTable : Type 0
SubscriptionTable = Map Key ℕ

abbrev pub new : SubscriptionTable
new = []

-- `entry(key).or_insert(0)`, then `+= 1` on a `usize`.
unfoldable pub count_up : Key → SubscriptionTable → ℕ
count_up key t = (map_or (lookup key t) 0 (λ c. c) + 1) % u64_mod

-- `before` tells whether the callback succeeds.
unfoldable pub add_with : Key → Bool → SubscriptionTable → SubscriptionTable × Option Bool
add_with key before t =
    if before then (insert key (count_up key t) t, some (nat_eqb (count_up key t) 1)) else (t, none)

unfoldable pub add : Key → SubscriptionTable → SubscriptionTable × Option Bool
add key t = add_with key true t

unfoldable pub remove_at : Key → Option ℕ → SubscriptionTable → SubscriptionTable × Bool
remove_at key none t = (t, false)
remove_at key (some c) t =
    if ltb 1 c then (insert key (c - 1) t, false) else (remove_key key t, true)

unfoldable pub remove : Key → SubscriptionTable → SubscriptionTable × Bool
remove key t = remove_at key (lookup key t) t

unfoldable pub remove_if_sole : Key → SubscriptionTable → SubscriptionTable × Bool
remove_if_sole key t =
    if map_or (lookup key t) false (λ c. nat_eqb c 1) then (remove_key key t, true) else (t, false)

unfoldable pub has : Key → SubscriptionTable → Bool
has key t = is_some (lookup key t)

-- `for_each_peer` calls with the peers of this list, in its order.
unfoldable pub peers_for_stream : Text → Text → SubscriptionTable → List ℕ
peers_for_stream app stream t =
    map (λ (x : Key × ℕ). x.0.0)
      (keep (λ (x : Key × ℕ). text_eqb x.0.1.0 app && text_eqb x.0.1.1 stream) t)

unfoldable pub streams_for_peer : ℕ → SubscriptionTable → List (Text × Text)
streams_for_peer peer t =
    map (λ (x : Key × ℕ). x.0.1) (keep (λ (x : Key × ℕ). nat_eqb x.0.0 peer) t)

unfoldable pub clear_peer : ℕ → SubscriptionTable → SubscriptionTable
clear_peer peer t = keep (λ (x : Key × ℕ). not (nat_eqb x.0.0 peer)) t

unfoldable pub clear_entry : Key → SubscriptionTable → SubscriptionTable
clear_entry key t = remove_key key t

unfoldable pub count : SubscriptionTable → ℕ
count t = length t

-- The calls that change the table, and what they answer.
pub data Call : Type 0 where
  adding : Key → Bool → Call
  removing removing_sole clearing : Key → Call
  clearing_peer : ℕ → Call

pub data Answer : Type 0 where
  done failed : Answer
  flag : Bool → Answer

unfoldable pub as_answer : Option Bool → Answer
as_answer none = failed
as_answer (some b) = flag b

unfoldable pub run_call : Call → SubscriptionTable → SubscriptionTable × Answer
run_call (adding key before) t = let r = add_with key before t in (r.0, as_answer r.1)
run_call (removing key) t = let r = remove key t in (r.0, flag r.1)
run_call (removing_sole key) t = let r = remove_if_sole key t in (r.0, flag r.1)
run_call (clearing key) t = (clear_entry key t, done)
run_call (clearing_peer peer) t = (clear_peer peer t, done)

unfoldable pub run_calls : List Call → SubscriptionTable → SubscriptionTable × List Answer
run_calls [] t = (t, [])
run_calls (c ∷ cs) t =
    let (now, answer) = run_call c t in
    let (last, answers) = run_calls cs now in (last, answer ∷ answers)
