-- ===== src/Media/Subscription/Refs.antt =====
-- The table of inbound subscriptions against a plain count for every key.
use librtmp2_server.Base.{
  ℕ, suc, ◌+◌, ◌-◌, ◌≤◌, ◌<◌, ◌≡◌, refl, fun_ext, arith, Bool, true, false, not, some, List, [],
  ◌∷◌, lookup, insert, remove, keep, map_or, if◌then◌else◌, ltb, nat_eqb, text_eq, nat_eq, pair_eq,
  ◌==◌, Distinct, lookup-insert, lookup-remove, lookup-keep, insert-Distinct, remove-Distinct,
  keep-Distinct, length, inl, inr, Bool-cases, Option-cases, u64_mod, subst, sym, ap, ◌∙◌, ==→eq,
}
use mathlib.Core.Path.{ap₂}
use librtmp2_server.Media.Subscription.Inbound.{
  Key, SubscriptionTable, count_up, add_with, remove_at, remove_if_sole, clear_peer, clear_entry,
  Call, adding, removing, removing_sole, clearing, clearing_peer, Answer, done, failed, flag,
  as_answer, run_call, run_calls,
}
use librtmp2_server.Media.Subscription.Inbound as Inbound

-- What is promised: a number of subscriptions for every key.
abbrev pub Refs : Type 0
Refs = Key → ℕ

abbrev pub set_refs : Key → ℕ → Refs → Refs
set_refs key n r = λ k. if key == k then n else r k

unfoldable pub spec_call : Call → Refs → Refs × Answer
spec_call (adding key before) r =
    if before then (set_refs key (r key + 1) r, flag (nat_eqb (r key) 0)) else (r, failed)
spec_call (removing key) r = (set_refs key (r key - 1) r, flag (nat_eqb (r key) 1))
spec_call (removing_sole key) r =
    (set_refs key (if nat_eqb (r key) 1 then 0 else r key) r, flag (nat_eqb (r key) 1))
spec_call (clearing key) r = (set_refs key 0 r, done)
spec_call (clearing_peer peer) r = ((λ k. if nat_eqb k.0 peer then 0 else r k), done)

unfoldable pub spec_calls : List Call → Refs → Refs × List Answer
spec_calls [] r = (r, [])
spec_calls (c ∷ cs) r =
    let (now, answer) = spec_call c r in
    let (last, answers) = spec_calls cs now in (last, answer ∷ answers)

-- The count that the table holds.
abbrev pub refs : SubscriptionTable → Refs
refs t = λ k. map_or (lookup k t) 0 (λ c. c)

-- The keys differ and no count is zero.
pub record IsCounted (t : SubscriptionTable) : Type 0 where
  pub distinct : Distinct t
  pub positive : (k : Key) (c : ℕ) → lookup k t ≡ some c → 0 < c

abbrev pub Small : ℕ → Refs → Type 0
Small n r = (k : Key) → r k + n < u64_mod

insert-IsCounted :
    (key : Key) (n : ℕ) (t : SubscriptionTable) → 0 < n → IsCounted t → IsCounted (insert key n t)
insert-IsCounted key n t h counted = record {
  distinct = insert-Distinct key n t counted.distinct;
  positive =
      λ k c e. ground (arith, lookup-insert k key n t, counted.positive k c, pair_eq.eqb_iff key k);
}

remove-IsCounted : (key : Key) (t : SubscriptionTable) → IsCounted t → IsCounted (remove key t)
remove-IsCounted key t counted = record {
  distinct = remove-Distinct key t counted.distinct;
  positive = λ k c e. ground (arith, lookup-remove k key t, counted.positive k c);
}

keep-IsCounted : (p : Key × ℕ → Bool) (t : SubscriptionTable) → IsCounted t → IsCounted (keep p t)
keep-IsCounted p t counted = record {
  distinct = keep-Distinct p t counted.distinct;
  positive = λ k c e. ground (arith, lookup-keep k p t counted.distinct, counted.positive k c);
}

refs-insert :
    (key : Key) (n : ℕ) (t : SubscriptionTable) → refs (insert key n t) ≡ set_refs key n (refs t)
refs-insert key n t = fun_ext (λ k. ground (arith, lookup-insert k key n t))

refs-remove : (key : Key) (t : SubscriptionTable) → refs (remove key t) ≡ set_refs key 0 (refs t)
refs-remove key t = fun_ext (λ k. ground (arith, lookup-remove k key t))

-- Setting a count that is there already.
set_refs_same : (key : Key) (n : ℕ) (r : Refs) → r key ≡ n → set_refs key n r ≡ r
set_refs_same key n r h = fun_ext (λ k. elim (Bool-cases (key == k)) [
  | inl same ↦ rw same (sym h ∙ ap r (==→eq key k same))
  | inr other ↦ rw other refl
])

-- What a call has to do: the answer of the specification, its counts, and a table in order.
abbrev Refines : SubscriptionTable × Answer → Refs × Answer → Type 0
Refines got want = (refs got.0 ≡ want.0) × (got.1 ≡ want.1) × IsCounted got.0

count_up_small :
    (key : Key) (t : SubscriptionTable) → refs t key + 1 < u64_mod → count_up key t ≡ refs t key + 1
unfolding count_up
count_up_small key t h = omega (arith, h)

add_with-Refines :
    (key : Key) (before : Bool) (t : SubscriptionTable)
    → IsCounted t
    → Small 1 (refs t)
    → Refines (run_call (adding key before) t) (spec_call (adding key before) (refs t))
unfolding run_call spec_call add_with as_answer
add_with-Refines key false t counted small = (refl, refl, counted)
add_with-Refines key true t counted small = rw up (
  refs-insert key (refs t key + 1) t,
  ground arith,
  insert-IsCounted key (refs t key + 1) t (omega arith) counted,
)
  where
    up : count_up key t ≡ refs t key + 1
    up = count_up_small key t (small key)

remove-Refines :
    (key : Key) (t : SubscriptionTable)
    → IsCounted t
    → Refines (run_call (removing key) t) (spec_call (removing key) (refs t))
unfolding run_call spec_call Inbound.remove remove_at
remove-Refines key t counted = elim (Option-cases (lookup key t)) [
  | inl none_there ↦
      rw none_there (sym (set_refs_same key 0 (refs t) (rw none_there refl)), refl, counted)
  | inr (c, there) ↦ elim (Bool-cases (ltb 1 c)) [
    | inl many ↦
        rw (there, many)
          (
            refs-insert key (c - 1) t,
            ground arith,
            insert-IsCounted key (c - 1) t (ground arith) counted,
          )
    | inr one ↦
        let sole : c ≡ 1 = ground (arith, counted.positive key c there) in
        rw (there, one, sole) (refs-remove key t, refl, remove-IsCounted key t counted)
  ]
]

remove_if_sole-Refines :
    (key : Key) (t : SubscriptionTable)
    → IsCounted t
    → Refines (run_call (removing_sole key) t) (spec_call (removing_sole key) (refs t))
unfolding run_call spec_call remove_if_sole
remove_if_sole-Refines key t counted = elim (Option-cases (lookup key t)) [
  | inl none_there ↦
      rw none_there (sym (set_refs_same key 0 (refs t) (rw none_there refl)), refl, counted)
  | inr (c, there) ↦ elim (Bool-cases (nat_eqb c 1)) [
    | inl one ↦ rw (there, one) (refs-remove key t, refl, remove-IsCounted key t counted)
    | inr other ↦
        rw (there, other) (sym (set_refs_same key c (refs t) (rw there refl)), refl, counted)
  ]
]

clear_peer-Refines :
    (peer : ℕ) (t : SubscriptionTable)
    → IsCounted t
    → Refines (run_call (clearing_peer peer) t) (spec_call (clearing_peer peer) (refs t))
unfolding run_call spec_call clear_peer
clear_peer-Refines peer t counted = (
  fun_ext (λ k.
      ground (arith, lookup-keep k (λ (x : Key × ℕ). not (nat_eqb x.0.0 peer)) t counted.distinct)),
  refl,
  keep-IsCounted _ t counted,
)

run_call-Refines :
    (c : Call) (t : SubscriptionTable)
    → IsCounted t
    → Small 1 (refs t)
    → Refines (run_call c t) (spec_call c (refs t))
run_call-Refines (adding key before) t counted small = add_with-Refines key before t counted small
run_call-Refines (removing key) t counted small = remove-Refines key t counted
run_call-Refines (removing_sole key) t counted small = remove_if_sole-Refines key t counted
run_call-Refines (clearing key) t counted small =
    unfold run_call spec_call clear_entry in
    (refs-remove key t, refl, remove-IsCounted key t counted)
run_call-Refines (clearing_peer peer) t counted small = clear_peer-Refines peer t counted

set_refs-le :
    (key : Key) (n : ℕ) (r : Refs) (k : Key) → n ≤ r key + 1 → set_refs key n r k ≤ r k + 1
set_refs-le key n r k h = elim (Bool-cases (key == k)) [
  | inl same ↦ rw same (subst (λ (j : Key). n ≤ r j + 1) (==→eq key k same) h)
  | inr other ↦ rw other (omega arith)
]

-- A call adds one to a count at most.
spec_call-le : (c : Call) (r : Refs) (k : Key) → (spec_call c r).0 k ≤ r k + 1
unfolding spec_call
spec_call-le (adding key true) r k = set_refs-le key (r key + 1) r k (omega arith)
spec_call-le (adding key false) r k = omega arith
spec_call-le (removing key) r k = set_refs-le key (r key - 1) r k (omega arith)
spec_call-le (removing_sole key) r k =
    set_refs-le key (if nat_eqb (r key) 1 then 0 else r key) r k (ground arith)
spec_call-le (clearing key) r k = set_refs-le key 0 r k (omega arith)
spec_call-le (clearing_peer peer) r k = ground arith

Small-call : (n : ℕ) (c : Call) (r : Refs) → Small (suc n) r → Small n (spec_call c r).0
Small-call n c r small k = omega (arith, small k, spec_call-le c r k)

-- Let no count be zero in a table with different keys, and let the calls be too few for a counter
-- to pass 2^64. Whatever the calls are, in whatever order: the table gives the answers that plain
-- counters give, and its counts are theirs. So adding answers true exactly for the first
-- subscription of the key, and removing exactly for the last; a failed callback changes nothing.
pub run_calls-Refines :
    (cs : List Call) (t : SubscriptionTable)
    → IsCounted t
    → Small (length cs) (refs t)
    → (refs (run_calls cs t).0 ≡ (spec_calls cs (refs t)).0)
      × ((run_calls cs t).1 ≡ (spec_calls cs (refs t)).1)
      × IsCounted (run_calls cs t).0
unfolding run_calls spec_calls
run_calls-Refines [] t counted small = (refl, refl, counted)
run_calls-Refines (c ∷ cs) t counted small =
    let h = run_call-Refines c t counted (λ k. omega (arith, small k)) in
    let ih =
      run_calls-Refines cs (run_call c t).0 h.2
        (subst (Small (length cs)) (sym h.0) (Small-call (length cs) c (refs t) small)) in
    (
      ih.0 ∙ ap (λ r. (spec_calls cs r).0) h.0,
      ap₂ ◌∷◌ h.1 (ih.1 ∙ ap (λ r. (spec_calls cs r).1) h.0),
      ih.2,
    )
