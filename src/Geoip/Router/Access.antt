-- ===== src/Geoip/Router/Access.antt =====
-- A router with credentials serves nobody else, and everybody who names a region.
use mathlib.Core.List.{append_assoc}
use proxyfleet.Base.{
  ℕ, ◌-◌, ◌<◌, ◌≡◌, inl, inr, ◌&&◌, true, false, Option, none, some, List, [], ◌∷◌, ◌++◌, Bytes,
  length, is_nil, take, drop, ltb, bytes_eq, bytes_discrete, codes, Bool-cases, Option-cases,
  length-append, drop-append_left, take-append_left, refl, sym, ap, subst, ◌∙◌, arith,
}
use proxyfleet.Geoip.Router.{
  RouterConfig, Router, all_regions, has_suffix, at_region, cut_region, dialed, region_in,
  authorize_region, authorize_credentials, authorize_and_select_region, dialer_for, serve_http,
}

-- A region of a list.
pub data Among (r : Bytes) : List Bytes → Type 0 where
  first_one : {rs : List Bytes} → Among r (r ∷ rs)
  further : {s : Bytes} {rs : List Bytes} → Among r rs → Among r (s ∷ rs)

-- What a username says: the router's own name, or that name with a region behind it.
pub data Says (to_lower : Bytes → Bytes) (cfg : RouterConfig) (username : Bytes)
    : Bytes → Type 0 where
  plain : username ≡ cfg.username → Says to_lower cfg username []
  with_region :
      (region : Bytes)
      → Among region all_regions
      → has_suffix (to_lower username) (at_region region) ≡ true
      → cut_region username region ≡ cfg.username
      → Says to_lower cfg username region

pub record Access (to_lower : Bytes → Bytes) (r : Router) (provided : Option (Bytes × Bytes))
    (d : ℕ) : Type 0 where
  pub username : Bytes
  pub region : Bytes
  pub given : provided ≡ some (username, r.cfg.password)
  pub says : Says to_lower r.cfg username region
  pub served : dialer_for r region ≡ some d

module _ (to_lower : Bytes → Bytes) where
  region_in-Among :
      (rs : List Bytes) (username region : Bytes)
      → region_in to_lower rs username ≡ some region
      → Among region rs × (has_suffix (to_lower username) (at_region region) ≡ true)
  unfolding region_in
  region_in-Among [] username region h = absurd (ground (arith, h))
  region_in-Among (r ∷ rs) username region h =
      elim (Bool-cases (has_suffix (to_lower username) (at_region r))) [
        | inl yes_suffix ↦
            let same : r ≡ region = ground (arith, h, yes_suffix) in
            subst (λ s. Among s (r ∷ rs) × (has_suffix (to_lower username) (at_region s) ≡ true))
              same (first_one, yes_suffix)
        | inr no_suffix ↦
            let found = region_in-Among rs username region (ground (arith, h, no_suffix)) in
            (further found.0, found.1)
      ]

  authorize_credentials-Says :
      (cfg : RouterConfig) (username password region : Bytes)
      → authorize_credentials to_lower cfg username password ≡ some region
      → (password ≡ cfg.password) × Says to_lower cfg username region
  unfolding authorize_credentials authorize_region
  authorize_credentials-Says cfg username password region h =
      elim (Bool-cases (bytes_eq username cfg.username && bytes_eq password cfg.password)) [
        | inl exact ↦
            let none_named : [] ≡ region = ground (arith, rw (exact, authorize_credentials) at h) in
            (
              ground (arith, exact),
              subst (Says to_lower cfg username) none_named (plain (ground (arith, exact))),
            )
        | inr other ↦
            let h1 = rw (other, authorize_credentials) at h in
            elim (Option-cases (region_in to_lower all_regions username)) [
              | inl absent ↦ absurd (ground (arith, rw (absent, authorize_region) at h1))
              | inr (r, found) ↦
                  let h2 = rw (found, authorize_region) at h1 in
                  let known = region_in-Among all_regions username r found in
                  let same : r ≡ region = ground (arith, h2) in
                  (
                    ground (arith, h2),
                    subst (Says to_lower cfg username) same
                        (with_region r known.0 known.1 (ground (arith, h2))),
                  )
            ]
      ]

  -- A router with credentials dials for nobody else: if a username or a password is configured and
  -- a request is dialed through a pool, then it gave the configured password and a username that is
  -- the configured one, or whose part in front of `@` and one of the seven regions is the
  -- configured one; and the pool is that region's, or the global one if there is no such pool or
  -- no region.
  pub serve_http-Access :
      (r : Router) (provided : Option (Bytes × Bytes)) (d : ℕ)
      → (is_nil r.cfg.username && is_nil r.cfg.password) ≡ false
      → serve_http to_lower r provided ≡ dialed d
      → Access to_lower r provided d
  unfolding serve_http authorize_and_select_region
  serve_http-Access r none d secret h =
      absurd (ground (arith, rw (secret, serve_http, authorize_and_select_region) at h))
  serve_http-Access r (some (username, password)) d secret h =
      let h1 = rw (secret, serve_http, authorize_and_select_region) at h in
      elim (Option-cases (authorize_credentials to_lower r.cfg username password)) [
        | inl refused ↦ absurd (ground (arith, rw refused at h1))
        | inr (region, granted) ↦
            let entry = authorize_credentials-Says r.cfg username password region granted in
            record {
              username = username;
              region = region;
              given = ap (λ p. some (username, p)) entry.0;
              says = entry.1;
              served = ground (arith, rw granted at h1);
            }
      ]

has_suffix-append : (x s t : Bytes) → length s ≡ length t → has_suffix (x ++ s) t ≡ bytes_eq s t
unfolding has_suffix
has_suffix-append x s t h =
    let long = length-append x s in
    let tail : drop (length (x ++ s) - length t) (x ++ s) ≡ s =
      ap (λ n. drop n (x ++ s)) (omega (arith, long, h)) ∙ drop-append_left (length x) x s refl in
    let enough : ltb (length (x ++ s)) (length t) ≡ false = ground (arith, long, h) in
    rw (enough, tail, has_suffix) refl

module _ (to_lower : Bytes → Bytes) (username x : Bytes) where
  tail_tested :
      (s t : Bytes)
      → to_lower username ≡ x ++ s
      → length s ≡ length t
      → has_suffix (to_lower username) t ≡ bytes_eq s t
  tail_tested s t h e = ap (λ u. has_suffix u t) h ∙ has_suffix-append x s t e

  other_tested :
      (t : Bytes)
      → to_lower username ≡ x ++ codes "@other"
      → length t ≡ 3
      → has_suffix (to_lower username) t ≡ bytes_eq (codes "her") t
  other_tested t h e =
      ap (λ u. has_suffix u t) (h ∙ sym (append_assoc x (codes "@ot") (codes "her")))
      ∙ has_suffix-append (x ++ codes "@ot") (codes "her") t (sym e)

  -- A name in lower case with a region behind it has that region and no other.
  region_in-found :
      (region : Bytes)
      → Among region all_regions
      → to_lower username ≡ x ++ at_region region
      → region_in to_lower all_regions username ≡ some region
  unfolding region_in bytes_discrete
  region_in-found _ first_one h =
      rw (tail_tested (at_region (codes "jp")) (at_region (codes "jp")) h refl) refl
  region_in-found _ (further first_one) h =
      rw
        (
          tail_tested (at_region (codes "kr")) (at_region (codes "jp")) h refl,
          tail_tested (at_region (codes "kr")) (at_region (codes "kr")) h refl,
        )
        refl
  region_in-found _ (further (further first_one)) h =
      rw
        (
          tail_tested (at_region (codes "us")) (at_region (codes "jp")) h refl,
          tail_tested (at_region (codes "us")) (at_region (codes "kr")) h refl,
          tail_tested (at_region (codes "us")) (at_region (codes "us")) h refl,
        )
        refl
  region_in-found _ (further (further (further first_one))) h =
      rw
        (
          tail_tested (at_region (codes "hk")) (at_region (codes "jp")) h refl,
          tail_tested (at_region (codes "hk")) (at_region (codes "kr")) h refl,
          tail_tested (at_region (codes "hk")) (at_region (codes "us")) h refl,
          tail_tested (at_region (codes "hk")) (at_region (codes "hk")) h refl,
        )
        refl
  region_in-found _ (further (further (further (further first_one)))) h =
      rw
        (
          tail_tested (at_region (codes "tw")) (at_region (codes "jp")) h refl,
          tail_tested (at_region (codes "tw")) (at_region (codes "kr")) h refl,
          tail_tested (at_region (codes "tw")) (at_region (codes "us")) h refl,
          tail_tested (at_region (codes "tw")) (at_region (codes "hk")) h refl,
          tail_tested (at_region (codes "tw")) (at_region (codes "tw")) h refl,
        )
        refl
  region_in-found _ (further (further (further (further (further first_one))))) h =
      rw
        (
          tail_tested (at_region (codes "sg")) (at_region (codes "jp")) h refl,
          tail_tested (at_region (codes "sg")) (at_region (codes "kr")) h refl,
          tail_tested (at_region (codes "sg")) (at_region (codes "us")) h refl,
          tail_tested (at_region (codes "sg")) (at_region (codes "hk")) h refl,
          tail_tested (at_region (codes "sg")) (at_region (codes "tw")) h refl,
          tail_tested (at_region (codes "sg")) (at_region (codes "sg")) h refl,
        )
        refl
  region_in-found _ (further (further (further (further (further (further first_one)))))) h =
      rw
        (
          other_tested (at_region (codes "jp")) h refl,
          other_tested (at_region (codes "kr")) h refl,
          other_tested (at_region (codes "us")) h refl,
          other_tested (at_region (codes "hk")) h refl,
          other_tested (at_region (codes "tw")) h refl,
          other_tested (at_region (codes "sg")) h refl,
          tail_tested (codes "@other") (codes "@other") h refl,
        )
        refl
  region_in-found region (further (further (further (further (further (further (further m))))))) h =
      elim m [ ]

longer_differs : (base tail : Bytes) → 0 < length tail → bytes_eq (base ++ tail) base ≡ false
longer_differs base tail h = elim (Bool-cases (bytes_eq (base ++ tail) base)) [
  | inr differs ↦ differs
  | inl same ↦
      let e : base ++ tail ≡ base = ground (arith, same) in
      absurd (omega (arith, h, ap length e, length-append base tail))
]

cut_region-append : (base region : Bytes) → cut_region (base ++ at_region region) region ≡ base
cut_region-append base region =
    ap (λ n. take n (base ++ at_region region))
      (omega (arith, length-append base (at_region region)))
    ∙ take-append_left (length base) base (at_region region) refl

-- Whoever knows the credentials gets every region by its name: with a username configured, the
-- configured password and the username with `@` and a region behind it select exactly that region,
-- provided that lower-casing leaves the region, and the bare username selects no region, even one
-- that itself ends like a region.
pub authorize-named :
    (to_lower : Bytes → Bytes) (cfg : RouterConfig) (x region : Bytes)
    → is_nil cfg.username ≡ false
    → Among region all_regions
    → to_lower (cfg.username ++ at_region region) ≡ x ++ at_region region
    → (authorize_and_select_region to_lower cfg
          (some (cfg.username ++ at_region region, cfg.password))
        ≡ some region)
      × (authorize_and_select_region to_lower cfg (some (cfg.username, cfg.password)) ≡ some [])
unfolding authorize_and_select_region authorize_credentials authorize_region
authorize-named to_lower cfg x region named known lowered =
    let found =
      region_in-found to_lower (cfg.username ++ at_region region) x region known lowered in
    let other = longer_differs cfg.username (at_region region) (omega arith) in
    let base = cut_region-append cfg.username region in
    (rw (named, other, found, base) (ground arith), rw named (ground arith))
