-- ===== src/RateLimit/Forwarded.antt =====
-- Which part of `X-Forwarded-For` counts.
use librtmp2_server.Base.{
  IpAddr, v4, v6, ip_eqb, to_canonical, ℕ, ◌/◌, ◌^◌, ◌≡◌, refl, sym, ap, ◌∙◌, subst, inl, inr,
  arith, false, not, Option, some, List, [], ◌∷◌, ◌++◌, Text, length, any_of, map_or, if◌then◌else◌,
  if-elim, map_or-elim, nat_eqb, Bool-cases,
}
use librtmp2_server.RateLimit.Requests.{
  visible, to_str, trim, split_before, split_comma, last_part, resolve_client_ip,
}

-- The parts end with the hop, and there are others before it.
abbrev EndsWith : Text → List Text → Type 0
EndsWith hop parts = (x : Text) × (xs : List Text) × (parts ≡ x ∷ (xs ++ hop ∷ []))

abbrev NoComma : Text → Type 0
NoComma s = any_of (λ c. nat_eqb c b',') s ≡ false

split_whole : (s : Text) → NoComma s → split_comma s ≡ s ∷ []
unfolding split_comma split_before any_of
split_whole [] h = refl
split_whole (c ∷ s) h = ground (arith, h, split_whole s)

EndsWith-before :
    (c : ℕ) (hop : Text) (parts : List Text)
    → EndsWith hop parts
    → EndsWith hop (split_before c parts)
unfolding split_before
EndsWith-before c hop parts (x, xs, e) =
    subst (λ (ps : List Text). EndsWith hop (split_before c ps)) (sym e)
      (if-elim (EndsWith hop) (nat_eqb c b',') (λ t. ([], x ∷ xs, refl)) (λ t. (c ∷ x, xs, refl)))

EndsWith-split : (p hop : Text) → NoComma hop → EndsWith hop (split_comma (p ++ b',' ∷ hop))
unfolding split_comma split_before
EndsWith-split [] hop h = rw (split_whole hop h) ([], [], refl)
EndsWith-split (c ∷ p) hop h = EndsWith-before c hop _ (EndsWith-split p hop h)

last_hop :
    (xs : List Text) (hop : Text)
    → nat_eqb (length (trim hop)) 0 ≡ false
    → last_part (xs ++ hop ∷ []) ≡ some (trim hop)
unfolding last_part
last_hop [] hop h = rw h refl
last_hop (x ∷ xs) hop h = rw (last_hop xs hop h) refl

canonical_twice : (a : IpAddr) → to_canonical (to_canonical a) ≡ to_canonical a
unfolding to_canonical
canonical_twice (v4 a) = refl
canonical_twice (v6 a) = elim (Bool-cases (nat_eqb (a / 2 ^ 32) 0xffff)) [
  | inl mapped ↦ rw mapped refl
  | inr plain ↦ rw (plain, plain) refl
]

abbrev IsCanonical : IpAddr → Type 0
IsCanonical a = to_canonical a ≡ a

resolve-IsCanonical :
    (parse : Text → Option IpAddr) (peer : IpAddr) (header : Option Text) (proxies : List IpAddr)
    → IsCanonical (resolve_client_ip parse peer header proxies)
unfolding resolve_client_ip
resolve-IsCanonical parse peer header proxies =
    if-elim IsCanonical (any_of (λ proxy. ip_eqb (to_canonical proxy) (to_canonical peer)) proxies)
      (λ e. map_or-elim IsCanonical header _ _ (canonical_twice peer) (λ v.
        map_or-elim IsCanonical (to_str v) _ _ (canonical_twice peer) (λ xff.
          map_or-elim IsCanonical (last_part (split_comma xff)) _ _ (canonical_twice peer) (λ hop.
            map_or-elim IsCanonical (parse hop) _ _ (canonical_twice peer) canonical_twice))))
      (λ e. canonical_twice peer)

-- The address, from the last part of the header.
resolve_last :
    (parse : Text → Option IpAddr) (peer : IpAddr) (proxies : List IpAddr) (header hop : Text)
    → any_of (λ c. not (visible c)) header ≡ false
    → last_part (split_comma header) ≡ some hop
    → resolve_client_ip parse peer (some header) proxies ≡ (
        if any_of (λ proxy. ip_eqb (to_canonical proxy) (to_canonical peer)) proxies
        then map_or (parse hop) (to_canonical peer) (λ client. to_canonical client)
        else to_canonical peer)
unfolding resolve_client_ip to_str
resolve_last parse peer proxies header hop v e = rw v (rw e refl)

-- Let the header be text with a comma, and let what stands behind the last comma, the hop, not be
-- blank. If the peer is a trusted proxy, the address is that of the hop if it can be parsed, and
-- otherwise that of the peer; if it is not, the address is that of the peer, whatever the header
-- says. In no case does what stands before the last comma count, which a client can send itself
-- through a proxy that puts its own hop behind it. And the address is in the one form that an IPv4
-- client has.
pub resolve_client_ip-hop :
    (parse : Text → Option IpAddr) (peer : IpAddr) (proxies : List IpAddr) (prefix hop : Text)
    → any_of (λ c. not (visible c)) (prefix ++ b',' ∷ hop) ≡ false
    → any_of (λ c. nat_eqb c b',') hop ≡ false
    → nat_eqb (length (trim hop)) 0 ≡ false
    → (resolve_client_ip parse peer (some (prefix ++ b',' ∷ hop)) proxies ≡ (
        if any_of (λ proxy. ip_eqb (to_canonical proxy) (to_canonical peer)) proxies
        then map_or (parse (trim hop)) (to_canonical peer) (λ client. to_canonical client)
        else to_canonical peer))
      × (to_canonical (resolve_client_ip parse peer (some (prefix ++ b',' ∷ hop)) proxies)
          ≡ resolve_client_ip parse peer (some (prefix ++ b',' ∷ hop)) proxies)
resolve_client_ip-hop parse peer proxies prefix hop v c n =
    let (x, xs, e) = EndsWith-split prefix hop c in
    (
      resolve_last parse peer proxies (prefix ++ b',' ∷ hop) (trim hop) v
          (ap last_part e ∙ last_hop (x ∷ xs) hop n),
      resolve-IsCanonical parse peer (some (prefix ++ b',' ∷ hop)) proxies,
    )
