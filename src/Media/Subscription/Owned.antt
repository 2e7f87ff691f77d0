-- ===== src/Media/Subscription/Owned.antt =====
-- The table of outbound subscriptions against the set of the sessions that hold a key.
use librtmp2_server.Base.{
  ◌<◌, ◌≡◌, ◌↔◌, refl, fun_ext, arith, Bool, true, false, none, some, Text, lookup, insert, map_or,
  if◌then◌else◌, nat_eqb, text_eqb, text_eq, nat_eq, pair_eq, ◌==◌, ==_refl, ==→eq, Distinct,
  lookup-insert, lookup-remove, insert-Distinct, remove-Distinct, length, inl, inr, Bool-cases,
  subst, sym, ap, ◌∙◌,
}
use librtmp2_server.Base.{remove as remove_key}
use librtmp2_server.Media.Subscription.Inbound.{Key}
use librtmp2_server.Media.Subscription.Outbound.{
  OutboundEntry, OutboundSubscriptions, contains, is_wired, Call, adding, removing, removing_sole,
  removing_all, wiring, unwiring, clearing_peer,
}
use librtmp2_server.Media.Subscription.Owners.{Unique, Sole}

-- What is held: the sessions of every key.
abbrev pub Held : Type 0
Held = Key → Text → Bool

abbrev pub held : OutboundSubscriptions → Held
held t = λ k p. map_or (lookup k t) false (λ e. contains p e.owners)

abbrev pub set_held : Key → (Text → Bool) → Held → Held
set_held key s h = λ k. if key == k then s else h k

abbrev pub with_session : Text → Bool → (Text → Bool) → Text → Bool
with_session o b s = λ p. if text_eqb o p then b else s p

-- What a call promises, from what was held before, its answer, and the table after it.
abbrev pub Promise : Call → Held → Bool → OutboundSubscriptions → Type 0
Promise (adding o key) h answer t =
    (held t ≡ set_held key (with_session o true (h key)) h)
    × ((answer ≡ true) ↔ ((p : Text) → h key p ≡ false))
    × (answer ≡ true → is_wired key t ≡ false)
Promise (removing o key) h answer t =
    (held t ≡ set_held key (with_session o false (h key)) h) × ((answer ≡ true) ↔ Sole o (h key))
Promise (removing_sole o key) h answer t =
    (held t ≡ (if answer then set_held key (with_session o false (h key)) h else h))
    × ((answer ≡ true) ↔ Sole o (h key))
Promise (removing_all key) h answer t =
    (held t ≡ set_held key (λ p. false) h) × ((answer ≡ true) ↔ ((p : Text) × (h key p ≡ true)))
Promise (wiring key wired) h answer t = held t ≡ h
Promise (unwiring peer) h answer t = (held t ≡ h) × ((k : Key) → k.0 ≡ peer → is_wired k t ≡ false)
Promise (clearing_peer peer) h answer t =
    held t ≡ (λ k p. if nat_eqb k.0 peer then false else h k p)

-- An entry has an owner, and no owner twice.
abbrev pub IsGood : OutboundEntry → Type 0
IsGood e = (0 < length e.owners) × Unique e.owners

pub record IsOwned (t : OutboundSubscriptions) : Type 0 where
  pub distinct : Distinct t
  pub good : (k : Key) (e : OutboundEntry) → lookup k t ≡ some e → IsGood e

pub held-insert :
    (key : Key) (e : OutboundEntry) (t : OutboundSubscriptions)
    → held (insert key e t) ≡ set_held key (λ p. contains p e.owners) (held t)
held-insert key e t = fun_ext (λ k. fun_ext (λ p. ground (arith, lookup-insert k key e t)))

pub held-remove :
    (key : Key) (t : OutboundSubscriptions)
    → held (remove_key key t) ≡ set_held key (λ p. false) (held t)
held-remove key t = fun_ext (λ k. fun_ext (λ p. ground (arith, lookup-remove k key t)))

pub insert-IsOwned :
    (key : Key) (e : OutboundEntry) (t : OutboundSubscriptions)
    → IsGood e
    → IsOwned t
    → IsOwned (insert key e t)
insert-IsOwned key e t h owned = record {
  distinct = insert-Distinct key e t owned.distinct;
  good = λ k f there. ground (arith, lookup-insert k key e t, owned.good k f, h);
}

pub remove-IsOwned :
    (key : Key) (t : OutboundSubscriptions) → IsOwned t → IsOwned (remove_key key t)
remove-IsOwned key t owned = record {
  distinct = remove-Distinct key t owned.distinct;
  good = λ k e there. ground (arith, lookup-remove k key t, owned.good k e);
}

-- The held sessions of a key after a write, a removal, and no change.
pub held_put :
    (key : Key) (e : OutboundEntry) (t : OutboundSubscriptions) (s : Text → Bool)
    → ((p : Text) → contains p e.owners ≡ s p)
    → held (insert key e t) ≡ set_held key s (held t)
held_put key e t s h =
    held-insert key e t ∙ ap (λ (x : Text → Bool). set_held key x (held t)) (fun_ext h)

pub held_drop :
    (key : Key) (t : OutboundSubscriptions) (s : Text → Bool)
    → ((p : Text) → s p ≡ false)
    → held (remove_key key t) ≡ set_held key s (held t)
held_drop key t s h =
    held-remove key t ∙ ap (λ (x : Text → Bool). set_held key x (held t)) (sym (fun_ext h))

pub held_same :
    (key : Key) (t : OutboundSubscriptions) (s : Text → Bool)
    → ((p : Text) → held t key p ≡ s p)
    → held t ≡ set_held key s (held t)
held_same key t s h = fun_ext (λ k. elim (Bool-cases (key == k)) [
  | inl same ↦ rw same (subst (λ (j : Key). held t j ≡ s) (==→eq key k same) (fun_ext h))
  | inr other ↦ rw other refl
])

pub held_at :
    (key : Key) (e : OutboundEntry) (t : OutboundSubscriptions)
    → lookup key t ≡ some e
    → (p : Text) → held t key p ≡ contains p e.owners
held_at key e t there p =
    ap (λ o. map_or o false (λ (x : OutboundEntry). contains p x.owners)) there

pub held_absent :
    (key : Key) (t : OutboundSubscriptions)
    → lookup key t ≡ none
    → (p : Text) → held t key p ≡ false
held_absent key t absent p =
    ap (λ o. map_or o false (λ (x : OutboundEntry). contains p x.owners)) absent

pub wired_put :
    (key : Key) (e : OutboundEntry) (t : OutboundSubscriptions)
    → is_wired key (insert key e t) ≡ e.wired
unfolding is_wired
wired_put key e t = ground (arith, lookup-insert key key e t, ==_refl key)
