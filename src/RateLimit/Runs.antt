-- ===== src/RateLimit/Runs.antt =====
-- Requests through the middleware, against a log of the accepted ones.
use librtmp2_server.Base.{
  ℕ, ◌≡◌, ◌≤◌, length, refl, sym, ap, ◌∙◌, Bool, false, List, [], ◌∷◌, Text, map, any_of,
  if◌then◌else◌, nat_eqb,
}
use librtmp2_server.RateLimit.Limiter.{max_tracked_keys, HttpRateLimitConfig, Buckets, check}
use librtmp2_server.RateLimit.Bounds.{Call, run_checks}
use librtmp2_server.RateLimit.Sliding.{spec_checks}
use librtmp2_server.RateLimit.History.{Ascending, KeysAmong, last_now, Capped, run_checks-History}
use librtmp2_server.RateLimit.Requests.{
  bearer_authenticated, key_of, Request, Settings, limit_of, middleware,
}
use librtmp2_server.RateLimit.Clients.{
  cap_named, any_colon, colon_inside, bucket_for-Named, bucket_for-cap, Named-no_colon,
}

-- What stands behind the last colon.
unfoldable pub after_colon : Text → Text
after_colon [] = []
after_colon (c ∷ s) =
    let rest = after_colon s in
    if any_of (λ c. nat_eqb c b':') s then rest else if nat_eqb c b':' then s else c ∷ s

after_colon-key : (p b : Text) → any_colon b ≡ false → after_colon (key_of p b) ≡ b
unfolding after_colon key_of
after_colon-key [] b h = rw h refl
after_colon-key (c ∷ p) b h = rw (colon_inside p b) (after_colon-key p b h)

-- The cap of a key.
unfoldable pub key_cap : HttpRateLimitConfig → Text → ℕ
key_cap config key = cap_named config (after_colon key)

unfoldable pub call_of : Settings → Request → Call
call_of s r = record { key = (limit_of s r).1; now = r.now; late = r.late }

unfoldable pub run_requests : Settings → List Request → Buckets → Buckets × List Bool
run_requests s [] g = (g, [])
run_requests s (r ∷ rs) g =
    let (now, answer) = middleware s r g in
    let (last, answers) = run_requests s rs now in (last, answer ∷ answers)

limit_of-cap : (s : Settings) (r : Request) → (limit_of s r).0 ≡ key_cap s.config (limit_of s r).1
unfolding limit_of key_cap
limit_of-cap s r =
    let auth = bearer_authenticated r.authorization r.api_token in
    let named = bucket_for-Named s.config r.path auth in
    sym (bucket_for-cap s.config _ named)
    ∙ sym (ap (cap_named s.config) (after_colon-key _ _ (Named-no_colon s.config _ named)))

run_requests-eq-run_checks :
    (s : Settings) (rs : List Request) (g : Buckets)
    → run_requests s rs g ≡ run_checks s.config.window (key_cap s.config) (map (call_of s) rs) g
unfolding run_requests run_checks middleware call_of
run_requests-eq-run_checks s [] g = refl
run_requests-eq-run_checks s (r ∷ rs) g =
    let call = call_of s r in
    let step = ap (λ (m : ℕ). check s.config.window call.key m r.now r.late g) (limit_of-cap s r) in
    let x = check s.config.window call.key (key_cap s.config call.key) r.now r.late g in
    ap (λ (y : Buckets × Bool). ((run_requests s rs y.0).0, y.1 ∷ (run_requests s rs y.0).1)) step
    ∙ ap (λ (y : Buckets × List Bool). (y.0, x.1 ∷ y.1)) (run_requests-eq-run_checks s rs x.0)

-- Let the requests have at most 10,000 different keys, and let the clock not go back. From the empty
-- table, whatever paths, addresses, headers and credentials the requests have, and however the API
-- token changes between them: a request goes on exactly if a log of all accepted requests has fewer
-- of its key in the window that ends at it than the cap of the bucket in the key, and otherwise it
-- is answered 429. And no window that ends at the last request or later has more accepted requests
-- of a key than its cap.
pub run_requests-History :
    (s : Settings) (ks : List Text) (rs : List Request)
    → length ks ≤ max_tracked_keys
    → Ascending 0 (map (call_of s) rs)
    → KeysAmong ks (map (call_of s) rs)
    → ((run_requests s rs []).1
        ≡ (spec_checks s.config.window (key_cap s.config) (map (call_of s) rs) []).1)
      × ((now : ℕ)
          → last_now 0 (map (call_of s) rs) ≤ now
          → Capped s.config.window
              (key_cap s.config)
              now
              (spec_checks s.config.window (key_cap s.config) (map (call_of s) rs) []).0)
run_requests-History s ks rs few up keys =
    let (answers, capped) =
      run_checks-History s.config.window (key_cap s.config) ks (map (call_of s) rs) few up keys in
    (ap (λ (x : Buckets × List Bool). x.1) (run_requests-eq-run_checks s rs []) ∙ answers, capped)
