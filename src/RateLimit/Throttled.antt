-- ===== src/RateLimit/Throttled.antt =====
-- A client that has used up its cap, while others make requests.
use librtmp2_server.Base.{
  ℕ, ◌+◌, ◌≡◌, ◌<◌, ◌≤◌, refl, sym, ap, subst, ◌∙◌, inl, inr, arith, Bool, true, false, ◌&&◌, some,
  List, [], ◌∷◌, ◌++◌, Text, lookup, keep, length, if◌then◌else◌, text_eqb, text_eqb_iff, text_eq,
  lookup-insert, lookup-remove, keep-keep, some_inj, length-keep-le, Bool-cases, All,
}
use librtmp2_server.RateLimit.Limiter.{
  Bucket, Buckets, timestamp_in_window, active_request_count, eligible, purge_expired, insert_fresh,
}
use librtmp2_server.RateLimit.Evict.{
  pruned, lookup-purge, Evicted, refused, evicted, Roomy, as_is, purged, full,
}
use librtmp2_server.RateLimit.Outcome.{
  active, Without, Checked, denied, throttled, counted, fresh, check-Checked,
}
use librtmp2_server.RateLimit.Bounds.{
  Call, run_checks, IsBounded, Checked-IsBounded, Without-IsBounded, purge-IsBounded,
}

-- What is in the window later on is in it now.
pub in_window_before :
    (window now later t : ℕ)
    → now ≤ later
    → timestamp_in_window window later t ≡ true
    → timestamp_in_window window now t ≡ true
unfolding timestamp_in_window
in_window_before window now later t h = ground arith

pub keep-later :
    (window now later : ℕ) (ts : List ℕ)
    → now ≤ later
    → keep (timestamp_in_window window later) (keep (timestamp_in_window window now) ts)
      ≡ keep (timestamp_in_window window later) ts
keep-later window now later ts h =
    keep-keep (timestamp_in_window window later) (timestamp_in_window window now) ts
      (λ t. in_window_before window now later t h)

pub length-later :
    (window now later : ℕ) (ts : List ℕ)
    → now ≤ later
    → length (keep (timestamp_in_window window later) ts)
      ≤ length (keep (timestamp_in_window window now) ts)
length-later window now later ts h = omega (
  arith,
  ap length (keep-later window now later ts h),
  length-keep-le (timestamp_in_window window later) (keep (timestamp_in_window window now) ts),
)

-- How many requests of a key have been let through.
unfoldable pub accepted : Text → List Call → List Bool → ℕ
accepted k [] answers = 0
accepted k (c ∷ cs) [] = 0
accepted k (c ∷ cs) (a ∷ answers) = (if text_eqb c.key k && a then 1 else 0) + accepted k cs answers

module _ (window : ℕ) (cap : Text → ℕ) (until : ℕ) (k : Text) where
  -- At the instant `until` the client still has its cap in the window.
  pub record IsFull (g : Buckets) : Type 0 where
    pub bucket : Bucket
    pub there : lookup k g ≡ some bucket
    pub many : cap k ≤ length (keep (timestamp_in_window window until) bucket.entries)

  -- A write or an eviction under another key.
  IsFull-other : (g g' : Buckets) → lookup k g' ≡ lookup k g → IsFull g → IsFull g'
  IsFull-other g g' e f = record { bucket = f.bucket; there = e ∙ f.there; many = f.many }

  IsFull-pruned :
      (now : ℕ) (g g' : Buckets) (f : IsFull g)
      → now ≤ until
      → lookup k g' ≡ some (pruned window now f.bucket)
      → IsFull g'
  IsFull-pruned now g g' f h e = record {
    bucket = pruned window now f.bucket;
    there = e;
    many = omega (arith, f.many, ap length (keep-later window now until f.bucket.entries h));
  }

  -- More than the cap is active now.
  active_many :
      (now : ℕ) (g : Buckets) (f : IsFull g)
      → now ≤ until
      → cap k ≤ length (pruned window now f.bucket).entries
  active_many now g f h = omega (arith, f.many, length-later window now until f.bucket.entries h)

  purge-IsFull :
      (now : ℕ) (g : Buckets)
      → IsBounded cap g
      → now ≤ until
      → IsFull g
      → IsFull (purge_expired window g now)
  purge-IsFull now g bounded h f = IsFull-pruned now g _ f h (
      ground (
        arith,
        lookup-purge window now k g bounded.distinct,
        f.there,
        active_many now g f h,
        bounded.buckets k f.bucket f.there,
      ))

  same_bucket :
      (j : Text) (b : Bucket) (g : Buckets) (f : IsFull g)
      → text_eqb j k ≡ true
      → lookup j g ≡ some b
      → b ≡ f.bucket
  same_bucket j b g f same there =
      some_inj (
        sym (subst (λ (x : Text). lookup x g ≡ some b) ((text_eqb_iff j k).0 same) there) ∙ f.there)

  not_eligible :
      (now : ℕ) (g : Buckets) (f : IsFull g)
      → now ≤ until
      → f.bucket.max_requests ≡ cap k
      → eligible window now f.bucket ≡ false
  unfolding eligible active_request_count
  not_eligible now g f h c = ground (arith, active_many now g f h)

  Evicted-IsFull :
      (now : ℕ) (g : Buckets) (r : Buckets × Bool)
      → Evicted window now g r
      → ((b : Bucket) → lookup k g ≡ some b → b.max_requests ≡ cap k)
      → now ≤ until
      → IsFull g
      → IsFull r.0
  Evicted-IsFull now g r (refused e) caps h f = f
  Evicted-IsFull now g r (evicted j b there able) caps h f =
      IsFull-other g _ (ground (arith, lookup-remove k j g, text_eqb_iff j k, spared)) f
    where
      spared : text_eqb j k ≡ false
      spared = elim (Bool-cases (text_eqb j k)) [
        | inr other ↦ other
        | inl same ↦
            let able' =
              sym able
              ∙ ap (eligible window now) (same_bucket j b g f same there)
              ∙ not_eligible now g f h (caps f.bucket f.there) in
            cc
      ]

  Roomy-IsFull :
      (now : ℕ) (g : Buckets) (r : Buckets × Bool)
      → Roomy window now g r
      → IsBounded cap g
      → now ≤ until
      → IsFull g
      → IsFull r.0
  Roomy-IsFull now g r (as_is room) bounded h f = f
  Roomy-IsFull now g r (purged at_cap room) bounded h f = purge-IsFull now g bounded h f
  Roomy-IsFull now g r (full r' at_cap ev) bounded h f =
      Evicted-IsFull now (purge_expired window g now) r ev
        (λ b there. ((purge-IsBounded cap window now g bounded).buckets k b there).2) h
        (purge-IsFull now g bounded h f)

  -- The client's own request is refused; nothing else takes the bucket away.
  abbrev Refuses : Text → Buckets × Bool → Type 0
  Refuses key r = IsFull r.0 × (text_eqb key k ≡ true → r.1 ≡ false)

  fresh-IsFull :
      (key : Text) (now : ℕ) (r : Buckets × Bool)
      → text_eqb key k ≡ false
      → IsFull r.0
      → IsFull (insert_fresh key (cap key) now r).0
  unfolding insert_fresh
  fresh-IsFull key now (g, false) other f = f
  fresh-IsFull key now (g, true) other f =
      IsFull-other g _
        (ground
          (arith, lookup-insert k key (record { entries = now ∷ []; max_requests = cap key }) g))
        f

  -- A bucket that is stale is not the client's.
  stale-other :
      (key : Text) (now : ℕ) (g g' : Buckets)
      → 0 < cap k
      → Without window key (cap key) now g g'
      → now ≤ until
      → IsFull g
      → text_eqb key k ≡ false
  stale-other key now g g' pos without h f = elim (Bool-cases (text_eqb key k)) [
    | inr other ↦ other
    | inl same ↦
        let gone =
          subst (λ (x : Text). active window now x g ≡ []) ((text_eqb_iff key k).0 same)
            without.stale in
        absurd (ground (arith, ap length gone, f.there, active_many now g f h, pos))
  ]

  Checked-Refuses :
      (key : Text) (now : ℕ) (g : Buckets) (r : Buckets × Bool)
      → Checked window key (cap key) now g r
      → IsBounded cap g
      → now ≤ until
      → IsFull g
      → Refuses key r
  Checked-Refuses key now g r (denied z) bounded h f = (f, λ e. refl)
  Checked-Refuses key now g r (throttled b pos there many) bounded h f =
      elim (Bool-cases (text_eqb key k)) [
        | inl same ↦ (
          IsFull-pruned now g _ f h (
              ground (
                arith,
                same,
                lookup-insert k key (pruned window now b) g,
                ap (λ (x : Bucket). some (pruned window now x)) (same_bucket key b g f same there),
              )),
          λ e. refl,
        )
        | inr other ↦ (
          IsFull-other g _ (ground (arith, other, lookup-insert k key (pruned window now b) g)) f,
          λ e. refl,
        )
      ]
  Checked-Refuses key now g r (counted b there below) bounded h f =
      elim (Bool-cases (text_eqb key k)) [
        | inl same ↦ absurd (
            omega (
              arith,
              below,
              ap cap ((text_eqb_iff key k).0 same),
              ap (λ (x : Bucket). length (pruned window now x).entries)
                  (same_bucket key b g f same there),
              active_many now g f h,
            ))
        | inr other ↦ (
          IsFull-other g _
              (ground (
                arith,
                other,
                lookup-insert k key
                    (record b { entries = (pruned window now b).entries ++ now ∷ [] }) g,
              ))
              f,
          λ e. cc,
        )
      ]
  Checked-Refuses key now g r (fresh g' r' pos without roomy) bounded h f =
      let in_use = bounded.buckets k f.bucket f.there in
      let other : text_eqb key k ≡ false =
        stale-other key now g g' (omega (arith, in_use.0, in_use.1)) without h f in
      (
        fresh-IsFull key now r' other (
            Roomy-IsFull now g' r' roomy (Without-IsBounded cap g' without bounded) h
              (IsFull-other g g' (ground (arith, without.others k, other)) f)),
        λ e. cc,
      )

  -- Let every key always come with the same cap, and let a client have its cap within the window
  -- that ends at an instant `until`. Whatever requests come up to then, from whatever clients, the
  -- client still has it afterwards, and none of its own requests has been let through. So neither
  -- a purge nor an eviction sets a throttled client free.
  pub run_checks-IsFull :
      (cs : List Call) (g : Buckets)
      → All (λ c. c.now ≤ until) cs
      → IsBounded cap g
      → IsFull g
      → IsFull (run_checks window cap cs g).0 × (accepted k cs (run_checks window cap cs g).1 ≡ 0)
  unfolding run_checks accepted
  run_checks-IsFull [] g h bounded f = (f, refl)
  run_checks-IsFull (c ∷ cs) g h bounded f =
      let ended = check-Checked window c.key (cap c.key) c.now g c.late bounded.distinct in
      let now = Checked-Refuses c.key c.now g _ ended bounded h.0 f in
      let later =
        run_checks-IsFull cs _ h.1 (Checked-IsBounded cap window c.now c.key g _ ended bounded)
          now.0 in
      (later.0, ground (arith, now.1, later.1))
