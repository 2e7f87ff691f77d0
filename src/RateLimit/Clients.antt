-- ===== src/RateLimit/Clients.antt =====
-- Whose budget a request draws from.
use librtmp2_server.Base.{
  ℕ, ◌≡◌, subst, refl, sym, ap, ◌∙◌, inl, inr, arith, Bool, true, false, ◌||◌, [], ◌∷◌, ◌++◌, Text,
  drop, ◌≢◌, any_of, if◌then◌else◌, if-elim, nat_eqb, text_eqb, text_eqb_iff, Bool-cases,
}
use librtmp2_server.RateLimit.Limiter.{HttpRateLimitConfig}
use librtmp2_server.RateLimit.Requests.{
  api, public, stats_path, stats_nginx_path, hls, default_name, api_path, hls_path, starts_with,
  hls_max, bucket_for, key_of,
}

-- The cap of a bucket by its name.
unfoldable pub cap_named : HttpRateLimitConfig → Text → ℕ
cap_named config name =
    if text_eqb name api
    then config.api_max
    else if text_eqb name stats_path || text_eqb name stats_nginx_path
    then config.stats_max
    else if text_eqb name hls
    then hls_max config
    else config.default_max

abbrev pub any_colon : Text → Bool
any_colon s = any_of (λ c. nat_eqb c b':') s

-- The six buckets.
pub data Named (config : HttpRateLimitConfig) : ℕ × Text → Type 0 where
  at_api : Named config (config.api_max, api)
  at_public : Named config (config.default_max, public)
  at_stats : Named config (config.stats_max, stats_path)
  at_stats_nginx : Named config (config.stats_max, stats_nginx_path)
  at_hls : Named config (hls_max config, hls)
  at_default : Named config (config.default_max, default_name)

pub bucket_for-Named :
    (config : HttpRateLimitConfig) (path : Text) (authenticated : Bool)
    → Named config (bucket_for config path authenticated)
unfolding bucket_for
bucket_for-Named config path authenticated =
    if-elim (Named config) (starts_with path api_path)
      (λ e. if-elim (Named config) authenticated (λ e. at_api) (λ e. at_public))
      (λ e.
        if-elim (Named config) (text_eqb path stats_path || text_eqb path stats_nginx_path)
          (λ f. elim (Bool-cases (text_eqb path stats_path)) [
            | inl same ↦
                subst (λ (p : Text). Named config (config.stats_max, p))
                  (sym ((text_eqb_iff path stats_path).0 same)) at_stats
            | inr other ↦
                subst (λ (p : Text). Named config (config.stats_max, p))
                  (sym ((text_eqb_iff path stats_nginx_path).0 (ground (arith, f, other))))
                  at_stats_nginx
          ])
          (λ f. if-elim (Named config) (starts_with path hls_path) (λ e. at_hls) (λ e. at_default)))

-- The name and the cap go together.
pub bucket_for-cap :
    (config : HttpRateLimitConfig) (b : ℕ × Text) → Named config b → cap_named config b.1 ≡ b.0
unfolding cap_named text_eqb
bucket_for-cap config b at_api = refl
bucket_for-cap config b at_public = refl
bucket_for-cap config b at_stats = refl
bucket_for-cap config b at_stats_nginx = refl
bucket_for-cap config b at_hls = refl
bucket_for-cap config b at_default = refl

pub Named-no_colon :
    (config : HttpRateLimitConfig) (b : ℕ × Text) → Named config b → any_colon b.1 ≡ false
unfolding any_of
Named-no_colon config b at_api = refl
Named-no_colon config b at_public = refl
Named-no_colon config b at_stats = refl
Named-no_colon config b at_stats_nginx = refl
Named-no_colon config b at_hls = refl
Named-no_colon config b at_default = refl

pub colon_inside : (p s : Text) → any_colon (p ++ b':' ∷ s) ≡ true
unfolding any_of
colon_inside [] s = refl
colon_inside (c ∷ p) s = ground (arith, colon_inside p s)

-- The last colon splits a key.
key_split :
    (p q a b : Text)
    → any_colon a ≡ false
    → any_colon b ≡ false
    → key_of p a ≡ key_of q b
    → (p ≡ q) × (a ≡ b)
unfolding key_of
key_split [] [] a b ha hb e = (refl, ap (drop 1) e)
key_split [] (c ∷ q) a b ha hb e =
    let t = sym ha ∙ ap any_colon (ap (drop 1) e) ∙ colon_inside q b in absurd (ground (arith, t))
key_split (c ∷ p) [] a b ha hb e =
    let t = sym hb ∙ ap any_colon (sym (ap (drop 1) e)) ∙ colon_inside p a in
    absurd (ground (arith, t))
key_split (c ∷ p) (d ∷ q) a b ha hb e =
    let rest = key_split p q a b ha hb (unfold key_of in (ap (drop 1) e)) in
    (ground (arith, e, rest.0), rest.1)

-- Two requests have the same key only if the texts of the clients and the buckets are the same, and
-- then they have the same cap, whatever the paths and the texts of the addresses are: the cap is
-- a function of the key.
pub key_of-injective :
    (config : HttpRateLimitConfig) (peer peer' path path' : Text) (auth auth' : Bool)
    → key_of peer (bucket_for config path auth).1 ≡ key_of peer' (bucket_for config path' auth').1
    → (peer ≡ peer')
      × ((bucket_for config path auth).1 ≡ (bucket_for config path' auth').1)
      × ((bucket_for config path auth).0 ≡ (bucket_for config path' auth').0)
key_of-injective config peer peer' path path' auth auth' e =
    let one = bucket_for-Named config path auth in
    let two = bucket_for-Named config path' auth' in
    let (p, b) =
      key_split peer peer' _ _ (Named-no_colon config _ one) (Named-no_colon config _ two) e in
    (
      p,
      b,
      sym (bucket_for-cap config _ one) ∙ ap (cap_named config) b ∙ bucket_for-cap config _ two,
    )

not_api :
    (config : HttpRateLimitConfig) (path : Text)
    → text_eqb (bucket_for config path false).1 api ≡ false
unfolding bucket_for text_eqb
not_api config path =
    if-elim NotApi (starts_with path api_path) (λ e. refl)
      (λ e.
        if-elim NotApi (text_eqb path stats_path || text_eqb path stats_nginx_path)
          (λ f. elim (Bool-cases (text_eqb path stats_path)) [
            | inl same ↦
                subst (λ (p : Text). text_eqb p api ≡ false)
                  (sym ((text_eqb_iff path stats_path).0 same)) refl
            | inr other ↦
                subst (λ (p : Text). text_eqb p api ≡ false)
                  (sym ((text_eqb_iff path stats_nginx_path).0 (ground (arith, f, other)))) refl
          ])
          (λ f. if-elim NotApi (starts_with path hls_path) (λ e. refl) (λ e. refl)))
  where
    NotApi : ℕ × Text → Type 0
    NotApi b = text_eqb b.1 api ≡ false

-- No request without the token, whatever its path and client are, has the key of a request that
-- draws from the API budget: so it cannot use that budget up.
pub unauthenticated-apart :
    (config : HttpRateLimitConfig) (peer peer' path path' : Text)
    → (bucket_for config path true).1 ≡ api
    → key_of peer' (bucket_for config path' false).1 ≢ key_of peer (bucket_for config path true).1
unauthenticated-apart config peer peer' path path' h e =
    let same = (key_of-injective config peer' peer path' path false true e).1 ∙ h in
    let other = sym (not_api config path') ∙ (text_eqb_iff _ api).1 same in
    absurd (ground (arith, other))
