-- ===== src/Config/Jobs.antt =====
-- internal/config/jobs.go, `NormalizeJobs`: the jobs of a configuration with their defaults filled
-- in, or the first error. The texts of the errors are left out, as are the jobs that an error
-- leaves half normalised. Parameters: the standard library's text and duration functions, the
-- pattern of names, and the test of a target URL.
pub mod Rules
pub mod Loop
pub mod Accepted
pub mod Rounds
pub mod Distinct
use proxyfleet.Base.{
  ℕ, zero, suc, ◌*◌, ◌&&◌, ◌||◌, Bool, true, false, not, Option, none, some, List, [], ◌∷◌, Bytes,
  length, is_nil, ltb, leb, if◌then◌else◌, or_else, bytes_eq, codes, ℤ, pos, negsuc,
}
use proxyfleet.Monitor.Backoff.{minute}
use proxyfleet.Config.Sessions.{valid_application_password, valid_session_credentials}

pub record Job : Type 0 where
  pub name : Bytes
  pub mode : Bytes
  pub selection : Bytes
  pub failure_policy : Bytes
  pub profile : Bytes
  pub ingress : Bytes
  pub password : Bytes
  pub endpoint : Bytes
  pub target_url : Bytes
  pub size : ℤ
  pub concurrency : ℤ
  pub timeout : Bytes
  pub refresh_interval : Bytes
  pub session_idle_timeout : Bytes
  pub session_ttl : Bytes
  pub max_sessions : ℤ
  pub max_accounts_per_node : ℤ
  pub probe_batch_size : ℤ
  pub probe_concurrency : ℤ
  pub max_response_bytes : ℤ
  pub expected_status : ℤ
  pub body_contains : Bytes

pub record Endpoint : Type 0 where
  pub name : Bytes
  pub enabled : Bool
  pub profile : Bytes
  pub username : Bytes
  pub password : Bytes

-- What the configuration says besides; the endpoints are those that `EffectiveEndpoints` answers.
pub record Setup : Type 0 where
  pub mode : Bytes
  pub profiles : List Bytes
  pub endpoints : List Endpoint

-- Code of other packages: `ToLower` of `TrimSpace`, `TrimSpace`, the pattern of names, whether a
-- target URL is one that can be probed, `ParseDuration` in nanoseconds.
pub record Texts : Type 0 where
  pub lower_trimmed : Bytes → Bytes
  pub trimmed : Bytes → Bytes
  pub is_name : Bytes → Bool
  pub is_target : Bytes → Bool
  pub parse_duration : Bytes → Option ℤ

pub data JobError : Type 0 where
  too_many_jobs : JobError
  bad_failure_policy : JobError
  bad_selection : JobError
  failover_needs_pinned : JobError
  bad_name : JobError
  no_profile : JobError
  bad_mode : JobError
  weak_password : JobError
  shared_password : JobError
  bad_shared_ingress : JobError
  anonymous_primary : JobError
  no_password : JobError
  bad_endpoint : JobError
  bad_credentials : JobError
  bad_direct_ingress : JobError
  bad_ingress : JobError
  bad_target : JobError
  bad_account_limit : JobError
  bad_limits : JobError
  bad_duration : JobError
  idle_needs_pinned : JobError

-- What the loop has seen: names, passwords (those of endpoints from the start) and endpoints.
pub record Marks : Type 0 where
  pub names : List Bytes
  pub passwords : List Bytes
  pub endpoints : List Bytes

abbrev pub elem : Bytes → List Bytes → Bool
elem s [] = false
elem s (t ∷ ts) = bytes_eq s t || elem s ts

unfoldable pub effective_ingress : Job → Bytes
effective_ingress j =
    if not (is_nil j.ingress)
    then j.ingress
    else if not (is_nil j.endpoint)
    then codes "endpoint"
    else if not (is_nil j.password)
    then codes "shared"
    else codes "direct"

unfoldable pub automatic_failover : Job → Bool
automatic_failover j =
    bytes_eq j.mode (codes "pinned")
    && (bytes_eq (effective_ingress j) (codes "shared")
        || bytes_eq (effective_ingress j) (codes "endpoint"))
    && bytes_eq j.failure_policy (codes "failover")

abbrev pub or_text : Bytes → Bytes → Bytes
or_text s default = if is_nil s then default else s

-- The texts of a job, with the defaults of the two policies.
unfoldable pub normalized : Texts → Job → Job
normalized t j = record j {
  name = t.lower_trimmed j.name;
  mode = t.lower_trimmed j.mode;
  selection = or_text (t.lower_trimmed j.selection) (codes "manual");
  failure_policy = or_text (t.lower_trimmed j.failure_policy) (codes "strict");
  profile = t.lower_trimmed j.profile;
  endpoint = t.lower_trimmed j.endpoint;
  ingress = t.lower_trimmed j.ingress;
  target_url = t.trimmed j.target_url;
}

abbrev pub raise : Bool → JobError → Option JobError
raise wrong e = if wrong then some e else none

unfoldable pub policy_error : Job → Option JobError
policy_error j =
    or_else
      (raise
        (not (
          bytes_eq j.failure_policy (codes "strict")
          || bytes_eq j.failure_policy (codes "failover")))
        bad_failure_policy)
      (or_else
        (raise (not (bytes_eq j.selection (codes "manual") || bytes_eq j.selection (codes "auto")))
          bad_selection)
        (raise (bytes_eq j.failure_policy (codes "failover") && not (automatic_failover j))
          failover_needs_pinned))

unfoldable pub identity_error : Texts → Setup → Marks → Job → Option JobError
identity_error t c m j = or_else (raise (not (t.is_name j.name) || elem j.name m.names) bad_name) (
    or_else (raise (not (elem j.profile c.profiles)) no_profile)
      (raise (not (bytes_eq j.mode (codes "pooled") || bytes_eq j.mode (codes "pinned"))) bad_mode))

unfoldable pub password_error : Marks → Job → Option JobError
password_error m j =
    if is_nil j.password
    then none
    else or_else (raise (not (valid_application_password j.password)) weak_password)
        (raise (elem j.password m.passwords) shared_password)
