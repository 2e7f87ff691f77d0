-- ===== src/Media/Subscription/Promises.antt =====
-- Every call on the outbound subscriptions keeps its promise.
use librtmp2_server.Base.{
  length-zero, ℕ, ◌≡◌, ◌↔◌, refl, fun_ext, arith, Bool, true, false, not, ◌&&◌, Option, none, some,
  Text, lookup, insert, any_of, map_or, is_some, if◌then◌else◌, nat_eqb, text_eqb_iff, text_eq,
  nat_eq, pair_eq, lookup-keep, keep-Distinct, length, inl, inr, Bool-cases, Option-cases, subst,
  sym, ap, ◌∙◌,
}
use librtmp2_server.Base.{remove as remove_key}
use librtmp2_server.Media.Subscription.Inbound.{Key}
use librtmp2_server.Media.Subscription.Outbound.{
  OutboundEntry, default_outbound, OutboundSubscriptions, contains, with_owner, without_owner,
  entry_or_default, release, remove_if_sole, remove_all, is_wired, set_wired, clear_wired,
  clear_peer, Call, adding, removing, removing_sole, removing_all, wiring, unwiring, clearing_peer,
  run_call,
}
use librtmp2_server.Media.Subscription.Outbound as Outbound
use librtmp2_server.Media.Subscription.Owners.{
  contains-with, contains-without, empty_of, Unique, with-Unique, without-Unique, Sole,
  Sole-without, Sole-one, first_owner, length-with, member,
}
use librtmp2_server.Media.Subscription.Owned.{
  held, with_session, Promise, IsGood, IsOwned, held-remove, insert-IsOwned, remove-IsOwned,
  held_put, held_drop, held_same, held_at, held_absent, wired_put,
}
use librtmp2_server.Media.Subscription.Unwired.{clear_wired-Promise}

-- Nobody is in a key that has no entry.
no-Sole :
    (o : Text) (key : Key) (t : OutboundSubscriptions)
    → lookup key t ≡ none
    → Sole o (held t key)
    → ⊥
no-Sole o key t absent h = ground (arith, h.0, held_absent key t absent o)

module _ (o : Text) (key : Key) (e : OutboundEntry) (t : OutboundSubscriptions) (owned : IsOwned t)
    (at : (p : Text) → held t key p ≡ contains p e.owners) where
  Sole-at : (h : Sole o (held t key)) → Sole o (λ p. contains p e.owners)
  Sole-at = subst (Sole o) (fun_ext at)

  Sole-back : (h : Sole o (λ p. contains p e.owners)) → Sole o (held t key)
  Sole-back = subst (Sole o) (sym (fun_ext at))

  add_at :
      Unique e.owners
      → (length e.owners ≡ 0 → e.wired ≡ false)
      → Promise
          (adding o key)
          (held t)
          (not (contains o e.owners) && nat_eqb (length (with_owner o e.owners)) 1)
          (insert key (record e { owners = with_owner o e.owners }) t)
        × IsOwned (insert key (record e { owners = with_owner o e.owners }) t)
  add_at u w = (
    (
      held_put key _ t (with_session o true (held t key))
          (λ p. ground (arith, contains-with p o e.owners, at p)),
      subst
          (λ (s : Text → Bool).
            (((not (contains o e.owners) && nat_eqb (length (with_owner o e.owners)) 1) ≡ true)
              ↔ ((p : Text) → s p ≡ false)))
          (sym (fun_ext at)) (first_owner o e.owners),
      λ first.
          wired_put key _ t ∙ w (ap length (empty_of e.owners ((first_owner o e.owners).0 first))),
    ),
    insert-IsOwned key _ t (length-with o e.owners, with-Unique o e.owners u) owned,
  )

  -- Removing the only owner leaves nobody.
  emptied :
      contains o e.owners ≡ true
      → nat_eqb (length (without_owner o e.owners)) 0 ≡ true
      → Sole o (λ p. contains p e.owners)
  emptied inside gone =
      (Sole-without o e.owners).1 (inside, length-zero (without_owner o e.owners) gone)

  release-Promise :
      Unique e.owners
      → Promise (removing o key) (held t) (release o key e t).1 (release o key e t).0
        × IsOwned (release o key e t).0
  unfolding release
  release-Promise u = elim (Bool-cases (contains o e.owners)) [
    | inl inside ↦ elim (Bool-cases (nat_eqb (length (without_owner o e.owners)) 0)) [
      | inl sole ↦
          rw (inside, sole)
            (
              (
                held_drop key t (with_session o false (held t key))
                    (λ p. ground (arith, at p, (emptied inside sole).1 p, text_eqb_iff o p)),
                ((λ h. Sole-back (emptied inside sole)), λ h. refl),
              ),
              remove-IsOwned key t owned,
            )
      | inr shared ↦
          rw (inside, shared)
            (
              (
                held_put key _ t (with_session o false (held t key))
                    (λ p. ground (arith, contains-without p o e.owners, at p)),
                (
                  (λ h. cc),
                  λ h. ground (arith, ap length ((Sole-without o e.owners).0 (Sole-at h)).1),
                ),
              ),
              insert-IsOwned key _ t (ground (arith, shared), without-Unique o e.owners u) owned,
            )
    ]
    | inr outside ↦ rw outside (
      (
        held_same key t (with_session o false (held t key))
            (λ p. ground (arith, at p, text_eqb_iff o p)),
        ((λ h. cc), λ h. ground (arith, at o, h.0)),
      ),
      owned,
    )
  ]

-- What an owned table has at a key.
entry_held :
    (key : Key) (t : OutboundSubscriptions) (p : Text)
    → held t key p ≡ contains p (entry_or_default key t).owners
unfolding entry_or_default contains any_of
entry_held key t p = ground arith

entry_good :
    (key : Key) (t : OutboundSubscriptions)
    → IsOwned t
    → Unique (entry_or_default key t).owners
      × (length (entry_or_default key t).owners ≡ 0 → (entry_or_default key t).wired ≡ false)
unfolding entry_or_default
entry_good key t owned = elim (Option-cases (lookup key t)) [
  | inl absent ↦ rw absent (tt, λ h. refl)
  | inr (e, there) ↦
      rw there ((owned.good key e there).1, λ h. ground (arith, (owned.good key e there).0))
]

add-Promise :
    (o : Text) (key : Key) (t : OutboundSubscriptions)
    → IsOwned t
    → Promise (adding o key) (held t) (Outbound.add o key t).1 (Outbound.add o key t).0
      × IsOwned (Outbound.add o key t).0
unfolding Outbound.add
add-Promise o key t owned =
    let good = entry_good key t owned in
    add_at o key (entry_or_default key t) t owned (entry_held key t) good.0 good.1

remove-Promise :
    (o : Text) (key : Key) (t : OutboundSubscriptions)
    → IsOwned t
    → Promise (removing o key) (held t) (Outbound.remove o key t).1 (Outbound.remove o key t).0
      × IsOwned (Outbound.remove o key t).0
unfolding Outbound.remove
remove-Promise o key t owned = elim (Option-cases (lookup key t)) [
  | inl absent ↦ subst Kept (sym (ap after absent)) (
    (
      held_same key t (with_session o false (held t key))
          (λ p. ground (arith, held_absent key t absent p)),
      ((λ h. cc), λ h. absurd (no-Sole o key t absent h)),
    ),
    owned,
  )
  | inr (e, there) ↦
      subst Kept (sym (ap after there))
        (release-Promise o key e t owned (held_at key e t there) (owned.good key e there).1)
]
  where
    Kept : OutboundSubscriptions × Bool → Type 0
    Kept r = Promise (removing o key) (held t) r.1 r.0 × IsOwned r.0

    after : Option OutboundEntry → OutboundSubscriptions × Bool
    after x = map_or x (t, false) (λ (e : OutboundEntry). release o key e t)

-- The test of `remove_if_sole`.
Sole-test :
    (o : Text) (x : Option OutboundEntry)
    → ((e : OutboundEntry) → x ≡ some e → IsGood e)
    → (map_or x false (λ e. nat_eqb (length e.owners) 1 && contains o e.owners) ≡ true)
      ↔ Sole o (λ p. map_or x false (λ e. contains p e.owners))
Sole-test o none good = ((λ h. cc), λ h. cc)
Sole-test o (some e) good = let both = Sole-one o e.owners (good e refl).1 in (both.1, both.0)

drop_if :
    (o : Text) (key : Key) (b : Bool) (t : OutboundSubscriptions)
    → ((b ≡ true) ↔ Sole o (held t key))
    → IsOwned t
    → let r : OutboundSubscriptions × Bool = if b then (remove_key key t, true) else (t, false) in
      Promise (removing_sole o key) (held t) r.1 r.0 × IsOwned r.0
drop_if o key true t h owned = (
  (
    held_drop key t (with_session o false (held t key))
        (λ p. ground (arith, (h.0 refl).1 p, text_eqb_iff o p)),
    h,
  ),
  remove-IsOwned key t owned,
)
drop_if o key false t h owned = ((refl, h), owned)

remove_if_sole-Promise :
    (o : Text) (key : Key) (t : OutboundSubscriptions)
    → IsOwned t
    → Promise (removing_sole o key) (held t) (remove_if_sole o key t).1 (remove_if_sole o key t).0
      × IsOwned (remove_if_sole o key t).0
unfolding remove_if_sole
remove_if_sole-Promise o key t owned =
    drop_if o key _ t (Sole-test o (lookup key t) (owned.good key)) owned

-- An entry is there exactly if somebody holds it.
some_holder :
    (x : Option OutboundEntry)
    → ((e : OutboundEntry) → x ≡ some e → IsGood e)
    → (is_some x ≡ true) ↔ ((p : Text) × (map_or x false (λ e. contains p e.owners) ≡ true))
some_holder none good = ((λ h. cc), λ h. h.1)
some_holder (some e) good = ((λ h. member e.owners (good e refl).0), λ h. refl)

remove_all-Promise :
    (key : Key) (t : OutboundSubscriptions)
    → IsOwned t
    → Promise (removing_all key) (held t) (remove_all key t).1 (remove_all key t).0
      × IsOwned (remove_all key t).0
unfolding remove_all Outbound.has
remove_all-Promise key t owned =
    ((held-remove key t, some_holder (lookup key t) (owned.good key)), remove-IsOwned key t owned)

set_wired_at :
    (key : Key) (wired : Bool) (t : OutboundSubscriptions) (x : Option OutboundEntry)
    → lookup key t ≡ x
    → IsOwned t
    → let now = map_or x t (λ e. insert key (record e { wired = wired }) t) in
      (held now ≡ held t) × IsOwned now
set_wired_at key wired t none e owned = (refl, owned)
set_wired_at key wired t (some x) e owned = (
  held_put key _ t (held t key) (λ p. sym (held_at key x t e p))
      ∙ sym (held_same key t (held t key) (λ p. refl)),
  insert-IsOwned key _ t (owned.good key x e) owned,
)

clear_peer-Promise :
    (peer : ℕ) (t : OutboundSubscriptions)
    → IsOwned t
    → Promise (clearing_peer peer) (held t) false (clear_peer peer t) × IsOwned (clear_peer peer t)
unfolding clear_peer
clear_peer-Promise peer t owned = (
  fun_ext (λ k. fun_ext (λ p. ground (
    arith,
    lookup-keep k (λ (x : Key × OutboundEntry). not (nat_eqb x.0.0 peer)) t owned.distinct,
  ))),
  record {
    distinct = keep-Distinct _ t owned.distinct;
    good = λ k e there. ground (
      arith,
      lookup-keep k (λ (x : Key × OutboundEntry). not (nat_eqb x.0.0 peer)) t owned.distinct,
      owned.good k e,
    );
  },
)

-- Let no entry be without an owner, and no owner be twice in it. Whatever call is made, the table
-- stays so, and what is held changes as the call says, for all keys and sessions. `add` answers true
-- exactly if nobody held the key, and then the key is not wired; `remove` and `remove_if_sole`
-- answer true exactly if the session held the key and nobody else did; and a session that does not
-- hold a key takes nothing from the others. `clear_wired` leaves no flag of the peer set and keeps
-- every holder.
pub run_call-Promise :
    (c : Call) (t : OutboundSubscriptions)
    → IsOwned t
    → Promise c (held t) (run_call c t).1 (run_call c t).0 × IsOwned (run_call c t).0
unfolding run_call
run_call-Promise (adding o key) t owned = add-Promise o key t owned
run_call-Promise (removing o key) t owned = remove-Promise o key t owned
run_call-Promise (removing_sole o key) t owned = remove_if_sole-Promise o key t owned
run_call-Promise (removing_all key) t owned = remove_all-Promise key t owned
run_call-Promise (wiring key wired) t owned =
    unfold set_wired in (set_wired_at key wired t (lookup key t) refl owned)
run_call-Promise (unwiring peer) t owned = clear_wired-Promise peer t owned
run_call-Promise (clearing_peer peer) t owned = clear_peer-Promise peer t owned
