-- ===== src/Cluster/Security/Budget.antt =====
-- The budget of bytes in flight: `try_reserve_inflight_bytes`, `grow` and `drop`, where the rounds of
-- their loops interleave in any way.
use librtmp2_server.Base.{
  ℕ, ◌+◌, ◌-◌, ◌%◌, ◌≡◌, ◌≤◌, ◌<◌, refl, ap, ◌∙◌, inl, inr, arith, true, false, List, [], ◌∷◌, ◌++◌,
  if◌then◌else◌, ltb, nat_eqb, saturating_add64, u64_mod, Bool-cases,
}

-- One round of a loop: refused, beaten by another thread, or the new value of the counter.
pub data Round : Type 0 where
  refused retry : Round
  won : ℕ → Round

-- `cur` is what the round has loaded, `counter` what the exchange finds.
unfoldable pub reserve_round : ℕ → ℕ → ℕ → ℕ → Round
reserve_round max_bytes additional cur counter =
    if ltb max_bytes (saturating_add64 cur additional)
    then refused
    else if nat_eqb counter cur
    then won ((cur + additional) % u64_mod)
    else retry

-- `drop` of a guard of so many bytes.
unfoldable pub release_bytes : ℕ → ℕ → ℕ
release_bytes bytes counter =
    if nat_eqb bytes 0 then counter else (counter + u64_mod - bytes) % u64_mod

-- The counter, and the bytes of every guard that is alive.
pub record Budget : Type 0 where
  pub counter : ℕ
  pub guards : List ℕ

-- What the threads do to it. `cur` is any value: a load may be as old as it likes. Nothing is
-- charged for zero bytes, in a new guard or in an old one.
pub data Step (max_bytes : ℕ) : Budget → Budget → Type 0 where
  reserve :
      (b : Budget) (bytes cur now : ℕ)
      → 0 < bytes
      → reserve_round max_bytes bytes cur b.counter ≡ won now
      → Step max_bytes b (record { counter = now; guards = bytes ∷ b.guards })
  reserve_nothing : (b : Budget) → Step max_bytes b (record b { guards = 0 ∷ b.guards })
  lose : (b : Budget) → Step max_bytes b b
  grow :
      (b : Budget) (before after : List ℕ) (bytes additional cur now : ℕ)
      → 0 < additional
      → b.guards ≡ before ++ bytes ∷ after
      → reserve_round max_bytes additional cur b.counter ≡ won now
      → Step max_bytes b
          (record { counter = now; guards = before ++ (bytes + additional) % u64_mod ∷ after })
  drop :
      (b : Budget) (before after : List ℕ) (bytes : ℕ)
      → b.guards ≡ before ++ bytes ∷ after
      → Step max_bytes b
          (record { counter = release_bytes bytes b.counter; guards = before ++ after })

pub data Reach (max_bytes : ℕ) : Budget → Type 0 where
  start : Reach max_bytes (record { counter = 0; guards = [] })
  later : {b c : Budget} → Reach max_bytes b → Step max_bytes b c → Reach max_bytes c

abbrev pub total : List ℕ → ℕ
total [] = 0
total (g ∷ gs) = g + total gs

total-insert :
    (before after : List ℕ) (g : ℕ) → total (before ++ g ∷ after) ≡ g + total (before ++ after)
total-insert [] after g = refl
total-insert (h ∷ before) after g = omega (arith, total-insert before after g)

-- The counter is the sum of the guards, and not more than allowed.
abbrev pub IsCharged : ℕ → Budget → Type 0
IsCharged max_bytes b = (b.counter ≡ total b.guards) × (b.counter ≤ max_bytes)

round_won :
    (max_bytes additional cur counter now : ℕ)
    → max_bytes + 1 < u64_mod
    → reserve_round max_bytes additional cur counter ≡ won now
    → (now ≡ counter + additional) × (now ≤ max_bytes)
unfolding reserve_round
round_won max_bytes additional cur counter now fits h =
    elim (Bool-cases (ltb max_bytes (saturating_add64 cur additional))) [
      | inl over ↦ absurd (ground (arith, over, h))
      | inr ok ↦ elim (Bool-cases (nat_eqb counter cur)) [
        | inr beaten ↦ absurd (ground (arith, ok, beaten, h))
        | inl same ↦ rounded ok same h
      ]
    ]
  where
    rounded :
        ltb max_bytes (saturating_add64 cur additional) ≡ false
        → nat_eqb counter cur ≡ true
        → (if ltb max_bytes (saturating_add64 cur additional)
            then refused
            else if nat_eqb counter cur
            then won ((cur + additional) % u64_mod)
            else retry)
          ≡ won now
        → (now ≡ counter + additional) × (now ≤ max_bytes)
    rounded ok same h = ground (arith, ok, same, h, fits)

release_exact :
    (bytes counter : ℕ)
    → bytes ≤ counter
    → counter < u64_mod
    → release_bytes bytes counter ≡ counter - bytes
unfolding release_bytes
release_exact bytes counter h fits = elim (Bool-cases (nat_eqb bytes 0)) [
  | inl none_held ↦ ground (arith, none_held)
  | inr held ↦ rw held (omega (arith, h, fits))
]

Step-IsCharged :
    {max_bytes : ℕ} {b c : Budget}
    → max_bytes + 1 < u64_mod
    → Step max_bytes b c
    → IsCharged max_bytes b
    → IsCharged max_bytes c
Step-IsCharged fits (reserve b bytes cur now pos h) charged =
    let r = round_won _ bytes cur b.counter now fits h in (omega (arith, r.0, charged.0), r.1)
Step-IsCharged fits (reserve_nothing b) charged = (omega (arith, charged.0), charged.1)
Step-IsCharged fits (lose b) charged = charged
Step-IsCharged fits (grow b before after bytes additional cur now pos g h) charged =
    let r = round_won _ additional cur b.counter now fits h in
    let old = ap total g ∙ total-insert before after bytes in
    (
      omega (
        arith,
        r.0,
        r.1,
        fits,
        charged.0,
        old,
        total-insert before after ((bytes + additional) % u64_mod),
      ),
      r.1,
    )
Step-IsCharged fits (drop b before after bytes g) charged =
    let old = ap total g ∙ total-insert before after bytes in
    let back =
      release_exact bytes b.counter (omega (arith, old, charged.0))
        (omega (arith, charged.1, fits)) in
    (omega (arith, back, old, charged.0), omega (arith, back, charged.1))

-- Let the limit be below the largest usize. However the threads interleave, and however old the values are that
-- they have loaded: the counter is always the sum of the bytes of the guards that are alive, and
-- never above the limit. So no byte is lost or given back twice, and no subtraction wraps around.
pub Reach-IsCharged :
    {max_bytes : ℕ} {b : Budget}
    → max_bytes + 1 < u64_mod
    → Reach max_bytes b
    → IsCharged max_bytes b
Reach-IsCharged fits start = (refl, omega arith)
Reach-IsCharged fits (later r st) = Step-IsCharged fits st (Reach-IsCharged fits r)
