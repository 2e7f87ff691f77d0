-- ===== src/Media/Subscription/Unwired.antt =====
-- `clear_wired`, at every key.
use librtmp2_server.Base.{
  ℕ, ◌≡◌, refl, fun_ext, arith, false, Option, none, some, [], ◌∷◌, lookup, map_or, if◌then◌else◌,
  if-elim, nat_eqb, text_eq, nat_eq, pair_eq, ◌==◌, ==→eq, Distinct, inl, inr, Bool-cases, subst,
  sym, ◌∙◌, some_inj,
}
use librtmp2_server.Media.Subscription.Inbound.{Key}
use librtmp2_server.Media.Subscription.Outbound.{
  OutboundEntry, OutboundSubscriptions, is_wired, clear_wired, unwiring,
}
use librtmp2_server.Media.Subscription.Owned.{held, Promise, IsGood, IsOwned}

-- Clearing the flags of a peer at one key.
abbrev unwired : ℕ → Key → OutboundEntry → OutboundEntry
unwired peer k e = if nat_eqb k.0 peer then record e { wired = false } else e

lookup-clear_wired :
    (peer : ℕ) (k : Key) (t : OutboundSubscriptions)
    → lookup k (clear_wired peer t) ≡ map_or (lookup k t) none (λ e. some (unwired peer k e))
unfolding lookup clear_wired
lookup-clear_wired peer k [] = refl
lookup-clear_wired peer k ((j, e) ∷ t) = elim (Bool-cases (j == k)) [
  | inl same ↦ rw (same, ==→eq j k same) refl
  | inr other ↦ rw other (lookup-clear_wired peer k t)
]

clear_wired-Distinct :
    (peer : ℕ) (t : OutboundSubscriptions) → Distinct t → Distinct (clear_wired peer t)
unfolding clear_wired
clear_wired-Distinct peer [] d = tt
clear_wired-Distinct peer ((j, e) ∷ t) d =
    (ground (arith, lookup-clear_wired peer j t, d.0), clear_wired-Distinct peer t d.1)

IsGood-unwired :
    (peer : ℕ) (k : Key) (x : Option OutboundEntry)
    → ((e : OutboundEntry) → x ≡ some e → IsGood e)
    → (f : OutboundEntry) → map_or x none (λ e. some (unwired peer k e)) ≡ some f
    → IsGood f
IsGood-unwired peer k none good f h = absurd (ground arith)
IsGood-unwired peer k (some e) good f h =
    subst IsGood (some_inj h)
      (if-elim IsGood (nat_eqb k.0 peer) (λ t. good e refl) (λ t. good e refl))

pub clear_wired-Promise :
    (peer : ℕ) (t : OutboundSubscriptions)
    → IsOwned t
    → Promise (unwiring peer) (held t) false (clear_wired peer t) × IsOwned (clear_wired peer t)
unfolding is_wired
clear_wired-Promise peer t owned = (
  (
    fun_ext (λ k. fun_ext (λ p. ground (arith, lookup-clear_wired peer k t))),
    λ k e. ground (arith, lookup-clear_wired peer k t),
  ),
  record {
    distinct = clear_wired-Distinct peer t owned.distinct;
    good = λ k e there.
        IsGood-unwired peer k (lookup k t) (owned.good k) e
          (sym (lookup-clear_wired peer k t) ∙ there);
  },
)
