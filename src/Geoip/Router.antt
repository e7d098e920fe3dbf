-- ===== src/Geoip/Router.antt =====
-- internal/geoip/router.go: who may use the router, and which pool serves a request. `to_lower`
-- stands for `strings.ToLower`. A credential is what `proxyCredentials` answers, a number a dialer
-- and `none` a nil one.
pub mod Access
use proxyfleet.Base.{
  ℕ, ◌-◌, ◌&&◌, ◌||◌, Bool, true, false, not, Option, none, some, List, [], ◌∷◌, ◌++◌, Bytes,
  length, is_nil, take, drop, ltb, if◌then◌else◌, bytes_eq, bytes_key, codes, lookup, insert,
  delete, or_else, ◌>>=◌,
}

pub record RouterConfig : Type 0 where
  pub username : Bytes
  pub password : Bytes

pub record Router : Type 0 where
  pub cfg : RouterConfig
  pub pools : List (Bytes × Option ℕ)
  pub global : Option ℕ

abbrev pub all_regions : List Bytes
all_regions =
    codes "jp" ∷ codes "kr" ∷ codes "us" ∷ codes "hk" ∷ codes "tw" ∷ codes "sg" ∷ codes "other" ∷ []

unfoldable pub set_pool : Bytes → Option ℕ → Router → Router
set_pool region dialer r = record r { pools = insert region dialer r.pools }

unfoldable pub remove_pool : Bytes → Router → Router
remove_pool region r = record r { pools = delete region r.pools }

unfoldable pub set_global_pool : Option ℕ → Router → Router
set_global_pool dialer r = record r { global = dialer }

unfoldable pub update_credentials : Bytes → Bytes → Router → Router
update_credentials username password r = record r {
  cfg = record { username = username; password = password };
}

unfoldable pub has_suffix : Bytes → Bytes → Bool
has_suffix s suffix =
    if ltb (length s) (length suffix)
    then false
    else bytes_eq (drop (length s - length suffix) s) suffix

-- The separator in front of a region.
abbrev pub at_region : Bytes → Bytes
at_region region = codes "@" ++ region

-- `username[:len(username)-len(suffix)]`
abbrev pub cut_region : Bytes → Bytes → Bytes
cut_region username region = take (length username - length (at_region region)) username

pub data Answer : Type 0 where
  proxy_auth_required : Answer
  service_unavailable : Answer
  dialed : ℕ → Answer

-- The pool of a region, and the global one without a region or a pool.
unfoldable pub dialer_for : Router → Bytes → Option ℕ
dialer_for r region =
    or_else (if is_nil region then none else lookup region r.pools >>= λ d. d) r.global

abbrev pub answer_of : Option ℕ → Answer
answer_of none = service_unavailable
answer_of (some d) = dialed d

abbrev pub answer_in : Router → Option Bytes → Answer
answer_in r none = proxy_auth_required
answer_in r (some region) = answer_of (dialer_for r region)

module _ (to_lower : Bytes → Bytes) where
  -- The loop of `splitRegionUsername` over the regions left.
  unfoldable pub split_in : List Bytes → Bytes → Bytes × Bytes
  split_in [] username = (username, [])
  split_in (r ∷ rs) username =
      let rest = split_in rs username in
      if bytes_eq (to_lower username) r
      then ([], r)
      else if has_suffix (to_lower username) (at_region r)
      then (cut_region username r, r)
      else rest

  unfoldable pub split_region_username : Bytes → Bytes × Bytes
  split_region_username username = split_in all_regions username

  -- The loop of `authorizeAndSelectRegion` over the regions left.
  unfoldable pub region_in : List Bytes → Bytes → Option Bytes
  region_in [] username = none
  region_in (r ∷ rs) username =
      let rest = region_in rs username in
      if has_suffix (to_lower username) (at_region r) then some r else rest

  -- The region chosen, empty for none; or no access.
  unfoldable pub authorize_open : Option (Bytes × Bytes) → Option Bytes
  authorize_open none = some (split_region_username []).1
  authorize_open (some (username, password)) =
      let (base, region) = split_region_username username in
      if not (is_nil base) then some [] else some region

  unfoldable pub authorize_region : RouterConfig → Bytes → Bytes → Option Bytes → Option Bytes
  authorize_region cfg username password none = none
  authorize_region cfg username password (some region) =
      if bytes_eq (cut_region username region) cfg.username && bytes_eq password cfg.password
      then some region
      else none

  unfoldable pub authorize_credentials : RouterConfig → Bytes → Bytes → Option Bytes
  authorize_credentials cfg username password =
      if bytes_eq username cfg.username && bytes_eq password cfg.password
      then some []
      else authorize_region cfg username password (region_in all_regions username)

  unfoldable pub authorize_and_select_region : RouterConfig → Option (Bytes × Bytes) → Option Bytes
  authorize_and_select_region cfg provided =
      if is_nil cfg.username && is_nil cfg.password
      then authorize_open provided
      else provided >>= λ c. authorize_credentials cfg c.0 c.1

  -- `ServeHTTP`, up to the dialing.
  unfoldable pub serve_http : Router → Option (Bytes × Bytes) → Answer
  serve_http r provided = answer_in r (authorize_and_select_region r.cfg provided)
