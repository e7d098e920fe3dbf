-- ===== src/Config/Jobs/Rules.antt =====
-- internal/config/jobs.go, `NormalizeJobs`, on from the ingress of a job, and its loop; and
-- internal/config/config.go, the primary endpoint.
use proxyfleet.Base.{
  ℕ, zero, ◌&&◌, ◌||◌, Bool, true, false, not, Option, none, some, List, [], ◌∷◌, Bytes, length,
  is_nil, ltb, leb, if◌then◌else◌, or_else, bytes_eq, codes, ℤ, pos, negsuc,
}
use proxyfleet.Config.Sessions.{valid_application_password, valid_session_credentials}
use proxyfleet.Config.Jobs.{
  Job, Endpoint, Setup, Texts, JobError, Marks, elem, effective_ingress, raise, bad_shared_ingress,
  anonymous_primary, no_password, bad_endpoint, bad_credentials, bad_direct_ingress, bad_ingress,
  bad_target, bad_account_limit, bad_limits,
}

abbrev first_endpoint : (Endpoint → Bool) → List Endpoint → Option Endpoint
first_endpoint p [] = none
first_endpoint p (e ∷ es) = if p e then some e else first_endpoint p es

abbrev no_endpoint : Endpoint
no_endpoint = record { name = []; enabled = true; profile = []; username = []; password = [] }

abbrev any_endpoint : Endpoint → Bool
any_endpoint e = true

abbrev or_endpoint : Option Endpoint → Endpoint → Endpoint
or_endpoint none e = e
or_endpoint (some e) _ = e

unfoldable pub primary_endpoint : List Endpoint → Endpoint
primary_endpoint es =
    or_endpoint
      (or_else (first_endpoint (λ e. e.enabled && is_nil e.profile) es)
        (or_else (first_endpoint (λ e. e.enabled) es) (first_endpoint any_endpoint es)))
      no_endpoint

-- The map by name keeps the last endpoint of a name.
unfoldable pub endpoint_named : Bytes → List Endpoint → Option Endpoint
endpoint_named n [] = none
endpoint_named n (e ∷ es) =
    or_else (endpoint_named n es) (if bytes_eq e.name n then some e else none)

unfoldable pub shared_error : Setup → Job → Option JobError
unfolding primary_endpoint
shared_error c j =
    let primary = primary_endpoint c.endpoints in
    let usable =
      is_nil j.endpoint
      && (bytes_eq c.mode (codes "pool") || bytes_eq c.mode (codes "hybrid"))
      && primary.enabled
      && is_nil primary.profile in
    or_else (raise (not usable) bad_shared_ingress) (
      or_else (raise (is_nil primary.username || is_nil primary.password) anonymous_primary)
        (raise (not (valid_application_password j.password)) no_password))

unfoldable pub endpoint_error : Setup → Marks → Job → Option JobError
endpoint_error c m j = elim (endpoint_named j.endpoint c.endpoints) [
  | none ↦ some bad_endpoint
  | some e ↦
      let usable =
        (bytes_eq c.mode (codes "pool") || bytes_eq c.mode (codes "hybrid"))
        && e.enabled
        && bytes_eq e.profile j.profile
        && not (elem j.endpoint m.endpoints) in
      or_else (raise (not usable) bad_endpoint) (
        raise
          (bytes_eq j.mode (codes "pinned")
            && not (valid_session_credentials e.username e.password))
          bad_credentials)
]

unfoldable pub direct_error : Setup → Job → Option JobError
direct_error c j =
    raise
      (not (
        bytes_eq j.mode (codes "pinned")
        && is_nil j.endpoint
        && (bytes_eq c.mode (codes "multi-port") || bytes_eq c.mode (codes "hybrid"))))
      bad_direct_ingress

unfoldable pub ingress_error : Setup → Marks → Job → Option JobError
ingress_error c m j =
    if bytes_eq (effective_ingress j) (codes "shared")
    then shared_error c j
    else if bytes_eq (effective_ingress j) (codes "endpoint")
    then endpoint_error c m j
    else if bytes_eq (effective_ingress j) (codes "direct")
    then direct_error c j
    else some bad_ingress

unfoldable pub target_error : Texts → Job → Option JobError
target_error t j =
    raise
      ((bytes_eq j.selection (codes "auto") || not (is_nil j.target_url))
        && not (t.is_target j.target_url))
      bad_target

abbrev pub or_number : ℤ → ℕ → ℤ
or_number (pos zero) default = pos default
or_number d default = d

-- The numbers, with their defaults.
unfoldable pub with_limits : Job → Job
with_limits j = record j {
  size = if bytes_eq j.selection (codes "auto") then or_number j.size 5 else j.size;
  concurrency = or_number j.concurrency 8;
  max_sessions = or_number j.max_sessions 1024;
  probe_batch_size = or_number j.probe_batch_size 32;
  probe_concurrency = or_number j.probe_concurrency 4;
  max_response_bytes = or_number j.max_response_bytes 2097152;
  expected_status = or_number j.expected_status 200;
}

abbrev pub is_within : ℕ → ℕ → ℤ → Bool
is_within low high (pos n) = leb low n && leb n high
is_within low high (negsuc n) = false

abbrev pub is_less : ℤ → ℤ → Bool
is_less (pos m) (pos n) = ltb m n
is_less (pos m) (negsuc n) = false
is_less (negsuc m) (pos n) = true
is_less (negsuc m) (negsuc n) = ltb n m

unfoldable pub limits_error : Job → Option JobError
limits_error j =
    let in_range =
      is_within 0 64 j.size
      && is_within 1 1024 j.concurrency
      && is_within 1 4096 j.max_sessions
      && is_within 1 256 j.probe_batch_size
      && not (bytes_eq j.selection (codes "auto") && is_less j.probe_batch_size j.size)
      && is_within 1 16 j.probe_concurrency
      && is_within 1 8388608 j.max_response_bytes
      && is_within 200 299 j.expected_status
      && leb (length j.body_contains) 4096 in
    or_else (raise (not (is_within 0 4096 j.max_accounts_per_node)) bad_account_limit)
      (raise (not in_range) bad_limits)
