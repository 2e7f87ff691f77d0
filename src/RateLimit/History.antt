-- ===== src/RateLimit/History.antt =====
-- Every run of requests against the history of those that were let through.
use librtmp2_server.Base.{
  Among, room-Among, ℕ, ◌≡◌, ◌≤◌, refl, sym, ap, arith, true, List, [], ◌∷◌, ◌++◌, Text, lookup,
  keep, length, any_of, if◌then◌else◌, text_eqb, text_eqb_iff, text_eq, keep-append, length-append,
  length-keep-le, Bool-cases, inl, inr, All,
}
use mathlib.Core.Path.{ap₂}
use librtmp2_server.RateLimit.Limiter.{max_tracked_keys, Buckets, timestamp_in_window}
use librtmp2_server.RateLimit.Outcome.{check-Checked}
use librtmp2_server.RateLimit.Bounds.{Call, run_checks, IsBounded, Checked-IsBounded}
use librtmp2_server.RateLimit.Throttled.{length-later}
use librtmp2_server.RateLimit.Sliding.{
  History, times, allowed, spec_checks, Agrees, Agrees-later, times-push, Checked-AnswersAs,
  Checked-Among,
}

-- The clock does not go back.
abbrev pub Ascending : ℕ → List Call → Type 0
Ascending before [] = Unit
Ascending before (c ∷ cs) = (before ≤ c.now) × Ascending c.now cs

-- The instant of the last request.
abbrev pub last_now : ℕ → List Call → ℕ
last_now before [] = before
last_now before (c ∷ cs) = last_now c.now cs

abbrev pub KeysAmong : List Text → List Call → Type 0
KeysAmong ks cs = All (λ c. any_of (λ x. text_eqb x c.key) ks ≡ true) cs

module _ (window : ℕ) (cap : Text → ℕ) where
  -- No window that ends at `now` or later has more requests of a client than its cap.
  abbrev pub Capped : ℕ → History → Type 0
  Capped now h = (k : Text) → length (keep (timestamp_in_window window now) (times k h)) ≤ cap k

  Capped-later : (before now : ℕ) (h : History) → before ≤ now → Capped before h → Capped now h
  Capped-later before now h le capped k =
      omega (arith, capped k, length-later window before now (times k h) le)

  Capped-push :
      (key : Text) (now : ℕ) (h : History)
      → Capped now h
      → allowed window cap key now h ≡ true
      → Capped now (h ++ (key, now) ∷ [])
  unfolding allowed
  Capped-push key now h capped ok k = elim (Bool-cases (text_eqb key k)) [
    | inl same ↦ ground (
      arith,
      same,
      ok,
      times-push k key now h,
      keep-append (timestamp_in_window window now) (times k h) (now ∷ []),
      length-append (keep (timestamp_in_window window now) (times k h))
          (keep (timestamp_in_window window now) (now ∷ [])),
      length-keep-le (timestamp_in_window window now) (now ∷ []),
      ap cap ((text_eqb_iff key k).0 same),
      ap (λ (x : Text). times x h) ((text_eqb_iff key k).0 same),
    )
    | inr other ↦ ground (arith, other, times-push k key now h, capped k)
  ]

  Capped-call :
      (key : Text) (now : ℕ) (h : History)
      → Capped now h
      → Capped now (if allowed window cap key now h then h ++ (key, now) ∷ [] else h)
  Capped-call key now h capped = elim (Bool-cases (allowed window cap key now h)) [
    | inl ok ↦ rw ok (Capped-push key now h capped ok)
    | inr over ↦ rw over capped
  ]

  spec_checks-Capped :
      (cs : List Call) (before : ℕ) (h : History)
      → Ascending before cs
      → Capped before h
      → Capped (last_now before cs) (spec_checks window cap cs h).0
  unfolding spec_checks
  spec_checks-Capped [] before h up capped = capped
  spec_checks-Capped (c ∷ cs) before h up capped =
      spec_checks-Capped cs c.now _ up.1
        (Capped-call c.key c.now h (Capped-later before c.now h up.0 capped))

  run_checks-Agrees :
      (ks : List Text) (cs : List Call) (before : ℕ) (g : Buckets) (h : History)
      → length ks ≤ max_tracked_keys
      → Ascending before cs
      → KeysAmong ks cs
      → IsBounded cap g
      → Among ks g
      → Agrees window before g h
      → (run_checks window cap cs g).1 ≡ (spec_checks window cap cs h).1
  unfolding run_checks spec_checks
  run_checks-Agrees ks [] before g h few up keys bounded among agrees = refl
  run_checks-Agrees ks (c ∷ cs) before g h few up keys bounded among agrees =
      let ended = check-Checked window c.key (cap c.key) c.now g c.late bounded.distinct in
      let room =
        room-Among ks max_tracked_keys c.key (record { entries = []; max_requests = 0 }) g few
          keys.0 bounded.distinct among in
      let step =
        Checked-AnswersAs window c.now c.key cap g h _ ended bounded room
          (Agrees-later window c.now before g h up.0 agrees) in
      ap₂ ◌∷◌ step.0 (
        rw (sym step.0) (
          run_checks-Agrees ks cs c.now _ _ few up.1 keys.1
            (Checked-IsBounded cap window c.now c.key g _ ended bounded)
            (Checked-Among window c.now c.key cap g h ks _ ended bounded room keys.0 among) step.1))

  -- Let every key always come with the same cap, let there be at most 10,000 different keys, and
  -- let the clock not go back. From the empty table, whatever requests come: the limiter answers
  -- each of them as a log of all accepted requests would, that is true exactly if fewer than the
  -- cap of this client are in the window that ends at the request; and no window that ends at the
  -- last request or later has more accepted requests of a client than its cap.
  pub run_checks-History :
      (ks : List Text) (cs : List Call)
      → length ks ≤ max_tracked_keys
      → Ascending 0 cs
      → KeysAmong ks cs
      → ((run_checks window cap cs []).1 ≡ (spec_checks window cap cs []).1)
        × ((now : ℕ) → last_now 0 cs ≤ now → Capped now (spec_checks window cap cs []).0)
  unfolding lookup times keep
  run_checks-History ks cs few up keys = (
    run_checks-Agrees ks cs 0 [] [] few up keys none-IsBounded (λ k there. absurd (ground arith))
        (λ k. refl),
    λ now later.
        Capped-later (last_now 0 cs) now _ later (spec_checks-Capped cs 0 [] up (λ k. omega arith)),
  )
    where
      none-IsBounded : IsBounded cap []
      none-IsBounded = record {
        distinct = tt;
        few = omega arith;
        buckets = λ k b there. absurd (ground arith);
      }
