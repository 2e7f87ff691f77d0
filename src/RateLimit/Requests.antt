-- ===== src/RateLimit/Requests.antt =====
-- Which bucket and which cap a request has, who it comes from, and the middleware around `check`.
use librtmp2_server.Base.{
  IpAddr, v4, ip_eqb, to_canonical, ℕ, ◌+◌, ◌-◌, ◌*◌, ◌%◌, ◌^◌, Bool, true, false, not, ◌&&◌, ◌||◌,
  Option, none, some, List, [], ◌∷◌, ◌++◌, Text, length, any_of, map_or, if◌then◌else◌, leb,
  nat_eqb, text_eqb, min, max, u64_mod, padded_diff,
}
use Prim.Native.Nat.{bit_xor}
use librtmp2_server.RateLimit.Limiter.{HttpRateLimitConfig, Buckets, check}

-- The texts "/api/", "api", "public", "/stats", "/stats-nginx", "/hls/", "hls", "default", "Bearer ".
abbrev pub api_path : Text
api_path = b'/' ∷ b'a' ∷ b'p' ∷ b'i' ∷ b'/' ∷ []

abbrev pub api : Text
api = b'a' ∷ b'p' ∷ b'i' ∷ []

abbrev pub public : Text
public = b'p' ∷ b'u' ∷ b'b' ∷ b'l' ∷ b'i' ∷ b'c' ∷ []

abbrev pub stats_path : Text
stats_path = b'/' ∷ b's' ∷ b't' ∷ b'a' ∷ b't' ∷ b's' ∷ []

abbrev pub stats_nginx_path : Text
stats_nginx_path = stats_path ++ b'-' ∷ b'n' ∷ b'g' ∷ b'i' ∷ b'n' ∷ b'x' ∷ []

abbrev pub hls_path : Text
hls_path = b'/' ∷ b'h' ∷ b'l' ∷ b's' ∷ b'/' ∷ []

abbrev pub hls : Text
hls = b'h' ∷ b'l' ∷ b's' ∷ []

abbrev pub default_name : Text
default_name = b'd' ∷ b'e' ∷ b'f' ∷ b'a' ∷ b'u' ∷ b'l' ∷ b't' ∷ []

abbrev pub bearer : Text
bearer = b'B' ∷ b'e' ∷ b'a' ∷ b'r' ∷ b'e' ∷ b'r' ∷ b' ' ∷ []

-- `str::strip_prefix`, and `starts_with` by it.
unfoldable pub strip_prefix : Text → Text → Option Text
strip_prefix [] s = some s
strip_prefix (c ∷ p) [] = none
strip_prefix (c ∷ p) (d ∷ s) = let rest = strip_prefix p s in if nat_eqb c d then rest else none

abbrev pub starts_with : Text → Text → Bool
starts_with s p = map_or (strip_prefix p s) false (λ rest. true)

unfoldable pub hls_max : HttpRateLimitConfig → ℕ
hls_max config =
    if nat_eqb config.default_max 0
    then 0
    else max (min (config.default_max * 10) (u64_mod - 1)) 600

unfoldable pub bucket_for : HttpRateLimitConfig → Text → Bool → ℕ × Text
bucket_for config path authenticated =
    if starts_with path api_path
    then (if authenticated then (config.api_max, api) else (config.default_max, public))
    else if text_eqb path stats_path || text_eqb path stats_nginx_path
    then (config.stats_max, path)
    else if starts_with path hls_path
    then (hls_max config, hls)
    else (config.default_max, default_name)

-- `(a.len() ^ b.len()) as u8`, and the loop.
unfoldable pub ct_str_eq : Text → Text → Bool
ct_str_eq a b =
    nat_eqb (padded_diff (max (length a) (length b)) (bit_xor (length a) (length b) % 256) a b) 0

-- `HeaderValue::to_str`: visible ASCII and tabs.
unfoldable pub visible : ℕ → Bool
visible c = (leb 32 c && leb c 126) || nat_eqb c 9

unfoldable pub to_str : Text → Option Text
to_str v = if any_of (λ c. not (visible c)) v then none else some v

-- `str::trim` on such text.
unfoldable pub is_space : ℕ → Bool
is_space c = nat_eqb c 32 || (leb 9 c && leb c 13)

unfoldable pub trim_start : Text → Text
trim_start [] = []
trim_start (c ∷ s) = let rest = trim_start s in if is_space c then rest else c ∷ s

unfoldable pub before_end : ℕ → Text → Text
before_end c [] = if is_space c then [] else c ∷ []
before_end c (d ∷ t) = c ∷ d ∷ t

unfoldable pub trim_end : Text → Text
trim_end [] = []
trim_end (c ∷ s) = before_end c (trim_end s)

unfoldable pub trim : Text → Text
trim s = trim_end (trim_start s)

-- `authorization` is the value of that header.
unfoldable pub bearer_authenticated : Option Text → Text → Bool
bearer_authenticated authorization token =
    if nat_eqb (length token) 0
    then false
    else map_or authorization false (λ v.
      map_or (to_str v) false
        (λ hdr. map_or (strip_prefix bearer hdr) false (λ tok. ct_str_eq (trim tok) token)))

-- `split(',')`: the first part, and the others.
unfoldable pub split_before : ℕ → List Text → List Text
split_before c [] = (c ∷ []) ∷ []
split_before c (part ∷ parts) = if nat_eqb c b',' then [] ∷ part ∷ parts else (c ∷ part) ∷ parts

unfoldable pub split_comma : Text → List Text
split_comma [] = [] ∷ []
split_comma (c ∷ s) = split_before c (split_comma s)

-- `map(str::trim).rfind(|part| !part.is_empty())`.
unfoldable pub last_part : List Text → Option Text
last_part [] = none
last_part (part ∷ parts) =
    let this = if nat_eqb (length (trim part)) 0 then none else some (trim part) in
    map_or (last_part parts) this (λ later. some later)

-- `parse` is `str::parse::<IpAddr>`.
unfoldable pub resolve_client_ip :
    (Text → Option IpAddr) → IpAddr → Option Text → List IpAddr → IpAddr
resolve_client_ip parse peer x_forwarded_for trusted_proxies =
    let canonical = to_canonical peer in
    if any_of (λ proxy. ip_eqb (to_canonical proxy) canonical) trusted_proxies
    then map_or x_forwarded_for canonical (λ v. map_or (to_str v) canonical (λ xff.
      map_or (last_part (split_comma xff)) canonical
        (λ rightmost. map_or (parse rightmost) canonical (λ client. to_canonical client))))
    else canonical

-- `client_ip`; `none` is a request without `ConnectInfo`.
unfoldable pub client_ip :
    (Text → Option IpAddr) → Option IpAddr → Option Text → List IpAddr → IpAddr
client_ip parse none x_forwarded_for trusted_proxies = v4 (127 * 2 ^ 24 + 1)
client_ip parse (some peer) x_forwarded_for trusted_proxies =
    resolve_client_ip parse peer x_forwarded_for trusted_proxies

-- `format!("{peer}:{bucket}")`, from the printed address.
unfoldable pub key_of : Text → Text → Text
key_of peer bucket = peer ++ b':' ∷ bucket

pub record Request : Type 0 where
  pub path : Text
  pub connect_info : Option IpAddr
  pub x_forwarded_for : Option Text
  pub authorization : Option Text
  -- What the lock of the token holds when the request reads it.
  pub api_token : Text
  -- The two readings of the clock.
  pub now : ℕ
  pub late : ℕ

-- The parts of a limiter that do not change, with `parse` and `show`, the text of an address.
pub record Settings : Type 0 where
  pub config : HttpRateLimitConfig
  pub trusted_proxies : List IpAddr
  pub parse : Text → Option IpAddr
  pub show : IpAddr → Text

-- The cap and the key of a request.
unfoldable pub limit_of : Settings → Request → ℕ × Text
limit_of s r =
    let peer = client_ip s.parse r.connect_info r.x_forwarded_for s.trusted_proxies in
    let (max_requests, bucket) =
      bucket_for s.config r.path (bearer_authenticated r.authorization r.api_token) in
    (max_requests, key_of (s.show peer) bucket)

-- True where the request goes on, false where it is answered 429.
unfoldable pub middleware : Settings → Request → Buckets → Buckets × Bool
middleware s r g =
    let (max_requests, key) = limit_of s r in check s.config.window key max_requests r.now r.late g
