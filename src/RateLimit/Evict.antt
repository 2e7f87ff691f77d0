-- ===== src/RateLimit/Evict.antt =====
-- What `purge_expired`, the eviction and `room_for_key` do to the table of buckets.
use librtmp2_server.Base.{
  ℕ, suc, ◌≡◌, ◌<◌, ◌≤◌, inl, inr, refl, sym, ap, subst, arith, Bool, true, false, not, none, some,
  [], ◌∷◌, Text, lookup, remove, keep, length, map_or, is_some, if◌then◌else◌, leb, nat_eqb,
  text_eqb_iff, text_eq, Distinct, lookup-keep, keep-Distinct, Bool-cases, Option-cases,
  length-keep-le,
}
use librtmp2_server.RateLimit.Limiter.{
  max_tracked_keys, Bucket, Buckets, timestamp_in_window, retain_entries, purge_expired, eligible,
  oldest_from, oldest_key, evict_oldest_eligible_client, room_for_key,
}

oldest_from-some :
    (late : ℕ) (best : Text × Bucket) (g : Buckets)
    → is_some (lookup (oldest_from late best g) (best ∷ g)) ≡ true
unfolding oldest_from lookup
oldest_from-some late best [] = ground (arith, text_eqb_iff best.0 best.0)
oldest_from-some late best (x ∷ g) =
    ground (arith, oldest_from-some late x g, oldest_from-some late best g)

-- The entries of a key after the first `retain`.
abbrev pub pruned : ℕ → ℕ → Bucket → Bucket
pruned window now b = record b { entries = keep (timestamp_in_window window now) b.entries }

pub lookup-retain :
    (window now : ℕ) (k : Text) (g : Buckets)
    → lookup k (retain_entries window now g)
      ≡ map_or (lookup k g) none (λ b. some (pruned window now b))
unfolding lookup retain_entries
lookup-retain window now k [] = refl
lookup-retain window now k ((j, b) ∷ g) = ground (arith, lookup-retain window now k g)

pub retain-Distinct :
    (window now : ℕ) (g : Buckets) → Distinct g → Distinct (retain_entries window now g)
unfolding retain_entries
retain-Distinct window now [] d = tt
retain-Distinct window now ((j, b) ∷ g) d =
    (ground (arith, lookup-retain window now j g, d.0), retain-Distinct window now g d.1)

length-retain : (window now : ℕ) (g : Buckets) → length (retain_entries window now g) ≡ length g
unfolding retain_entries
length-retain window now [] = refl
length-retain window now (x ∷ g) = ap suc (length-retain window now g)

pub length-purge-le :
    (window now : ℕ) (g : Buckets) → length (purge_expired window g now) ≤ length g
unfolding purge_expired
length-purge-le window now g = omega (
  arith,
  length-retain window now g,
  length-keep-le (λ (x : Text × Bucket). not (nat_eqb (length x.1.entries) 0))
      (retain_entries window now g),
)

-- A purge keeps of every bucket what is in the window, and the bucket if that is something.
pub lookup-purge :
    (window now : ℕ) (k : Text) (g : Buckets)
    → Distinct g
    → lookup k (purge_expired window g now)
      ≡ map_or (lookup k g) none (λ b.
        if nat_eqb (length (pruned window now b).entries) 0
        then none
        else some (pruned window now b))
unfolding purge_expired
lookup-purge window now k g d = ground (
  arith,
  lookup-keep k (λ (x : Text × Bucket). not (nat_eqb (length x.1.entries) 0))
      (retain_entries window now g) (retain-Distinct window now g d),
  lookup-retain window now k g,
)

pub purge-Distinct :
    (window now : ℕ) (g : Buckets) → Distinct g → Distinct (purge_expired window g now)
unfolding purge_expired
purge-Distinct window now g d =
    keep-Distinct _ (retain_entries window now g) (retain-Distinct window now g d)

-- Either nobody is below the cap, or one who is loses the bucket.
pub data Evicted (window now : ℕ) (g : Buckets) : Buckets × Bool → Type 0 where
  refused :
      keep (λ (x : Text × Bucket). eligible window now x.1) g ≡ [] → Evicted window now g (g, false)
  evicted :
      (k : Text) (b : Bucket)
      → lookup k g ≡ some b
      → eligible window now b ≡ true
      → Evicted window now g (remove k g, true)

evict_at :
    (window now : ℕ) (k : Text) (g : Buckets)
    → Distinct g
    → is_some (lookup k (keep (λ (x : Text × Bucket). eligible window now x.1) g)) ≡ true
    → (b : Bucket) × (lookup k g ≡ some b) × (eligible window now b ≡ true)
evict_at window now k g d h = elim (Option-cases (lookup k g)) [
  | inl absent ↦
      absurd (ground (arith, lookup-keep k (λ (x : Text × Bucket). eligible window now x.1) g d))
  | inr (b, there) ↦
      (b, there, ground (arith, lookup-keep k (λ (x : Text × Bucket). eligible window now x.1) g d))
]

evict_some :
    (window now late : ℕ) (g : Buckets) (kept : Buckets)
    → Distinct g
    → keep (λ (x : Text × Bucket). eligible window now x.1) g ≡ kept
    → Evicted window now g (map_or (oldest_key late kept) (g, false) (λ k. (remove k g, true)))
unfolding oldest_key
evict_some window now late g [] d e = refused e
evict_some window now late g (x ∷ kept) d e =
    let k = oldest_from late x kept in
    let (b, there, able) = evict_at window now k g d (
      subst (λ (m : Buckets). is_some (lookup k m) ≡ true) (sym e)
        (oldest_from-some late x kept)) in
    evicted k b there able

pub evict-Evicted :
    (window now late : ℕ) (g : Buckets)
    → Distinct g
    → Evicted window now g (evict_oldest_eligible_client window g now late)
unfolding evict_oldest_eligible_client
evict-Evicted window now late g d = evict_some window now late g _ d refl

-- What `room_for_key` leaves: the table, a purged one, or a purged one without an eligible client. If
-- it answers true, then there is room.
pub data Roomy (window now : ℕ) (g : Buckets) : Buckets × Bool → Type 0 where
  as_is : length g < max_tracked_keys → Roomy window now g (g, true)
  purged :
      max_tracked_keys ≤ length g
      → length (purge_expired window g now) < max_tracked_keys
      → Roomy window now g (purge_expired window g now, true)
  full :
      (r : Buckets × Bool)
      → max_tracked_keys ≤ length (purge_expired window g now)
      → Evicted window now (purge_expired window g now) r
      → Roomy window now g r

pub room_for_key-Roomy :
    (window now late : ℕ) (g : Buckets)
    → Distinct g
    → Roomy window now g (room_for_key window now late g)
unfolding room_for_key
room_for_key-Roomy window now late g d = elim (Bool-cases (leb max_tracked_keys (length g))) [
  | inr room ↦ rw room (as_is (ground (arith, room)))
  | inl at_cap ↦ elim (Bool-cases (leb max_tracked_keys (length (purge_expired window g now)))) [
    | inr room ↦ rw (at_cap, room) (purged (ground (arith, at_cap)) (ground (arith, room)))
    | inl still ↦
        rw (at_cap, still)
          (full _ (ground (arith, still)) (
            evict-Evicted window now late (purge_expired window g now)
              (purge-Distinct window now g d)))
  ]
]

-- Nothing is done where there is room.
pub Roomy-room :
    (window now : ℕ) (g : Buckets) (r : Buckets × Bool)
    → Roomy window now g r
    → length g < max_tracked_keys
    → r ≡ (g, true)
Roomy-room window now g r (as_is few) room = refl
Roomy-room window now g r (purged at_cap few) room = absurd (omega (arith, at_cap, room))
Roomy-room window now g r (full r' at_cap ev) room =
    absurd (omega (arith, at_cap, room, length-purge-le window now g))
