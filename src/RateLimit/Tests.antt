-- ===== src/RateLimit/Tests.antt =====
-- src/rate_limit.rs on concrete requests, and the theorems there.
use librtmp2_server.Base.{
  IpAddr, v4, v6, ip_eqb, to_canonical, ℕ, if◌then◌else◌, ◌^◌, ◌+◌, ◌*◌, ◌≡◌, ◌≢◌, ◌≤◌, ◌<◌, ◌↔◌,
  refl, arith, true, false, Option, none, some, List, [], ◌∷◌, ◌++◌, Text, lookup, insert, remove,
  keep, length, any_of, map, text_eqb,
}
use librtmp2_server.RateLimit.Limiter
use librtmp2_server.RateLimit.Limiter.{Buckets, default_config, second, check}
use librtmp2_server.RateLimit.Bounds.{Call, run_checks, IsBounded, run_checks-IsBounded}
use librtmp2_server.RateLimit.Throttled.{IsFull, accepted, run_checks-IsFull}
use librtmp2_server.RateLimit.Sliding.{spec_checks}
use librtmp2_server.RateLimit.History.{last_now, Capped, run_checks-History}
use librtmp2_server.RateLimit.Requests
use librtmp2_server.RateLimit.Requests.{
  api, public, api_path, bearer, bucket_for, bearer_authenticated, key_of, Request, Settings,
  resolve_client_ip, visible, trim,
}
use librtmp2_server.RateLimit.Bearer.{Carries, bearer_authenticated_iff}
use librtmp2_server.RateLimit.Clients.{key_of-injective, unauthenticated-apart}
use librtmp2_server.RateLimit.Forwarded.{resolve_client_ip-hop}
use librtmp2_server.RateLimit.Runs.{run_requests, call_of, key_cap, run_requests-History}

abbrev one : Text
one = b'1' ∷ []

abbrev two : Text
two = b'2' ∷ []

abbrev cap : Text → ℕ
cap k = 2

abbrev calls : List Call
calls =
    record { key = one; now = 10; late = 10 }
    ∷ record { key = one; now = 12; late = 12 }
    ∷ record { key = one; now = 15; late = 15 }
    ∷ record { key = two; now = 15; late = 15 }
    ∷ record { key = one; now = 20; late = 20 }
    ∷ []

-- Two in ten instants; the fifth request comes when the first one is out of the window.
answered : (run_checks 10 cap calls []).1 ≡ true ∷ true ∷ false ∷ true ∷ true ∷ []
unfolding run_checks check Limiter.check_tracked Limiter.insert_fresh Limiter.room_for_key
    Limiter.purge_expired Limiter.retain_entries Limiter.evict_oldest_eligible_client
    Limiter.timestamp_in_window lookup insert remove keep text_eqb
answered = refl

empty-IsBounded : IsBounded cap []
unfolding lookup
empty-IsBounded = record {
  distinct = tt;
  few = omega arith;
  buckets = λ k b there. absurd (ground arith);
}

run_checks-IsBounded_example : IsBounded cap (run_checks 10 cap calls []).0
run_checks-IsBounded_example = run_checks-IsBounded 10 cap calls [] empty-IsBounded

-- A client that has used up its cap.
abbrev used_up : Buckets
used_up = (one, record { entries = 10 ∷ 12 ∷ []; max_requests = 2 }) ∷ []

used_up-IsBounded : IsBounded cap used_up
unfolding lookup
used_up-IsBounded = record {
  distinct = (refl, tt);
  few = omega arith;
  buckets = λ k b there. ground arith;
}

used_up-IsFull : IsFull 10 cap 19 one used_up
unfolding lookup text_eqb Limiter.timestamp_in_window keep
used_up-IsFull = record {
  bucket = record { entries = 10 ∷ 12 ∷ []; max_requests = 2 };
  there = refl;
  many = omega arith;
}

abbrev others : List Call
others = record { key = two; now = 13; late = 13 } ∷ record { key = one; now = 19; late = 19 } ∷ []

run_checks-IsFull_example :
    IsFull 10 cap 19 one (run_checks 10 cap others used_up).0
    × (accepted one others (run_checks 10 cap others used_up).1 ≡ 0)
run_checks-IsFull_example =
    run_checks-IsFull 10 cap 19 one others used_up (omega arith) used_up-IsBounded used_up-IsFull

run_checks-History_example :
    ((run_checks 10 cap calls []).1 ≡ (spec_checks 10 cap calls []).1)
    × ((now : ℕ) → last_now 0 calls ≤ now → Capped 10 cap now (spec_checks 10 cap calls []).0)
unfolding any_of text_eqb
run_checks-History_example =
    run_checks-History 10 cap (one ∷ two ∷ []) calls (omega arith) (omega arith)
      (refl, (refl, (refl, (refl, (refl, tt)))))

abbrev token : Text
token = b't' ∷ b'1' ∷ []

bearer_authenticated_iff_example :
    (bearer_authenticated (some (bearer ++ b' ' ∷ token)) token ≡ true) ↔ (
      (0 < length token)
      × ((v : Text) × (some (bearer ++ b' ' ∷ token) ≡ some v) × Carries token v))
bearer_authenticated_iff_example =
    bearer_authenticated_iff token (omega arith) (some (bearer ++ b' ' ∷ token))

key_of-injective_example :
    (one ≡ one)
    × ((bucket_for default_config (api_path ++ one) true).1
        ≡ (bucket_for default_config (api_path ++ two) true).1)
    × ((bucket_for default_config (api_path ++ one) true).0
        ≡ (bucket_for default_config (api_path ++ two) true).0)
unfolding bucket_for Requests.strip_prefix
key_of-injective_example =
    key_of-injective default_config one one (api_path ++ one) (api_path ++ two) true true refl

unauthenticated-apart_example :
    key_of one (bucket_for default_config (api_path ++ one) false).1
    ≢ key_of one (bucket_for default_config (api_path ++ one) true).1
unfolding bucket_for Requests.strip_prefix
unauthenticated-apart_example =
    unauthenticated-apart default_config one one (api_path ++ one) (api_path ++ one) refl

abbrev parse : Text → Option IpAddr
parse s = if text_eqb s one then some (v6 (0xffff * 2 ^ 32 + 1)) else none

resolve_client_ip-hop_example :
    (resolve_client_ip parse (v4 7) (some (two ++ b',' ∷ b' ' ∷ one)) (v4 7 ∷ []) ≡ v4 1)
    × (to_canonical (resolve_client_ip parse (v4 7) (some (two ++ b',' ∷ b' ' ∷ one)) (v4 7 ∷ []))
        ≡ resolve_client_ip parse (v4 7) (some (two ++ b',' ∷ b' ' ∷ one)) (v4 7 ∷ []))
unfolding any_of visible trim Requests.trim_start Requests.trim_end Requests.before_end
    Requests.is_space ip_eqb to_canonical text_eqb
resolve_client_ip-hop_example =
    resolve_client_ip-hop parse (v4 7) (v4 7 ∷ []) two (b' ' ∷ one) refl refl refl

abbrev settings : Settings
settings = record {
  config = default_config;
  trusted_proxies = v4 7 ∷ [];
  parse = parse;
  show = λ ip. two;
}

abbrev requests : List Request
requests =
    record {
      path = api_path ++ one;
      connect_info = some (v4 7);
      x_forwarded_for = none;
      authorization = none;
      api_token = token;
      now = 1;
      late = 1;
    }
    ∷ []

-- The address of the proxy is shown as "2".
abbrev request_calls : List Call
request_calls = map (call_of settings) requests

run_requests-History_example :
    ((run_requests settings requests []).1
      ≡ (spec_checks (60 * second) (key_cap default_config) request_calls []).1)
    × ((now : ℕ)
        → last_now 0 request_calls ≤ now
        → Capped
            (60 * second)
            (key_cap default_config)
            now
            (spec_checks (60 * second) (key_cap default_config) request_calls []).0)
unfolding call_of Requests.limit_of key_of bucket_for bearer_authenticated Requests.strip_prefix
    any_of text_eqb
run_requests-History_example =
    run_requests-History settings (key_of two public ∷ []) requests (omega arith) (omega arith)
      (refl, tt)
