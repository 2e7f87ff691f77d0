-- ===== src/Cluster/Health/Swept.antt =====
-- What a sweep leaves of one peer.
use librtmp2_server.Base.{
  ℕ, ◌≡◌, ◌≤◌, refl, sym, ◌∙◌, subst, inl, inr, arith, Bool, true, some, [], ◌∷◌, Map, lookup,
  insert, map_or, is_some, if◌then◌else◌, nat_eqb, nat_eqb_iff, nat_eq, ==→eq, Bool-cases,
  Option-cases, lookup-insert, some_inj,
}
use librtmp2_server.Cluster.Health.Tracker.{down, PeerHealth, arm, is_stale, sweep}

pub lookup-arm :
    (i id now : ℕ) (since : Map ℕ ℕ)
    → lookup id (arm i now since)
      ≡ (if nat_eqb i id then some (map_or (lookup id since) now (λ x. x)) else lookup id since)
unfolding arm
lookup-arm i id now since = elim (Bool-cases (nat_eqb i id)) [
  | inl same ↦
      subst
        (λ (k : ℕ). lookup id (if is_some (lookup k since) then since else insert k now since) ≡ (
          if nat_eqb k id then some (map_or (lookup id since) now (λ x. x)) else lookup id since))
        (sym (==→eq i id same)) (ground (arith, lookup-insert id id now since, nat_eqb_iff id id))
  | inr other ↦ ground (arith, other, lookup-insert id i now since)
]

module _ {F : Type 0} where
  pub sweep_keeps :
      (id miss now x : ℕ) (ps : Map ℕ (PeerHealth F)) (since : Map ℕ ℕ)
      → lookup id since ≡ some x
      → lookup id (sweep miss now ps since).1 ≡ some x
  unfolding sweep
  sweep_keeps id miss now x [] since at = at
  sweep_keeps id miss now x ((i, p) ∷ ps) since at = elim (Bool-cases (is_stale miss now p)) [
    | inl stale ↦ rw stale (
        sweep_keeps id miss now x ps (arm i now since)
          (ground (arith, lookup-arm i id now since, at)))
    | inr fresh ↦ rw fresh (sweep_keeps id miss now x ps since at)
  ]

  -- The instants after a sweep are old ones, or its own.
  pub sweep_early :
      (id miss now s : ℕ) (ps : Map ℕ (PeerHealth F)) (since : Map ℕ ℕ)
      → now ≤ s
      → ((x : ℕ) → lookup id since ≡ some x → x ≤ s)
      → (x : ℕ) → lookup id (sweep miss now ps since).1 ≡ some x
      → x ≤ s
  unfolding sweep
  sweep_early id miss now s [] since le early x at = early x at
  sweep_early id miss now s ((i, p) ∷ ps) since le early x at =
      elim (Bool-cases (is_stale miss now p)) [
        | inl stale ↦ sweep_early id miss now s ps (arm i now since) le later x (
            subst
              (λ (b : Bool).
                lookup id (sweep miss now ps (if b then arm i now since else since)).1 ≡ some x)
              stale (ground (arith, at, stale)))
        | inr fresh ↦ sweep_early id miss now s ps since le early x (
            subst
              (λ (b : Bool).
                lookup id (sweep miss now ps (if b then arm i now since else since)).1 ≡ some x)
              fresh (ground (arith, at, fresh)))
      ]
    where
      later : (y : ℕ) → lookup id (arm i now since) ≡ some y → y ≤ s
      later y at = elim (Option-cases (lookup id since)) [
        | inl absent ↦ ground (arith, lookup-arm i id now since, absent, at, le)
        | inr (z, there) ↦ ground (arith, lookup-arm i id now since, there, at, early z there)
      ]

  unfoldable pub aged : ℕ → ℕ → PeerHealth F → PeerHealth F
  aged miss now p = if is_stale miss now p then record p { state = down } else p

  -- The row itself, where the sweep reaches it.
  sweep_head :
      (id miss now : ℕ) (q : PeerHealth F) (i : ℕ) (ps : Map ℕ (PeerHealth F)) (since : Map ℕ ℕ)
      → nat_eqb i id ≡ true
      → (lookup id (sweep miss now ((i, q) ∷ ps) since).0 ≡ some (aged miss now q))
        × (is_stale miss now q ≡ true
            → is_some (lookup id (sweep miss now ((i, q) ∷ ps) since).1) ≡ true)
  unfolding sweep lookup aged
  sweep_head id miss now q i ps since same = elim (Bool-cases (is_stale miss now q)) [
    | inl stale ↦
        let armed =
          sweep_keeps id miss now (map_or (lookup id since) now (λ x. x)) ps (arm i now since)
            (lookup-arm i id now since ∙ rw same refl) in
        rw (stale, same) (refl, λ e. rw armed refl)
    | inr fresh ↦ rw (fresh, same) (refl, λ e. absurd (ground (arith, e)))
  ]

  pub sweep_row :
      (id miss now : ℕ) (p : PeerHealth F) (ps : Map ℕ (PeerHealth F)) (since : Map ℕ ℕ)
      → lookup id ps ≡ some p
      → (lookup id (sweep miss now ps since).0 ≡ some (aged miss now p))
        × (is_stale miss now p ≡ true → is_some (lookup id (sweep miss now ps since).1) ≡ true)
  unfolding sweep lookup aged
  sweep_row id miss now p [] since found = absurd (ground (arith, found))
  sweep_row id miss now p ((i, q) ∷ ps) since found = elim (Bool-cases (nat_eqb i id)) [
    | inl same ↦
        subst
          (λ (r : PeerHealth F).
            (lookup id (sweep miss now ((i, q) ∷ ps) since).0 ≡ some (aged miss now r))
            × (is_stale miss now r ≡ true
                → is_some (lookup id (sweep miss now ((i, q) ∷ ps) since).1) ≡ true))
          (some_inj (ground (arith, found, same))) (sweep_head id miss now q i ps since same)
    | inr other ↦
        let next : lookup id ps ≡ some p = ground (arith, found, other) in
        elim (Bool-cases (is_stale miss now q)) [
          | inl stale ↦ rw (stale, other) (sweep_row id miss now p ps (arm i now since) next)
          | inr fresh ↦ rw (fresh, other) (sweep_row id miss now p ps since next)
        ]
  ]
