-- ===== src/Jobs/Store/Config.antt =====
-- internal/config/jobs.go: what the store reads of a job's configuration. Durations are the parsed
-- ones, which `NormalizeJobs` keeps from being negative, as it does the limits.
use proxyfleet.Base.{ℕ, Bool, ◌&&◌, ◌||◌, not, [], Bytes, bytes_eq, ltb, if◌then◌else◌, codes}

pub record JobConfig : Type 0 where
  pub name : Bytes
  pub mode : Bytes
  pub failure_policy : Bytes
  pub ingress : Bytes
  pub password : Bytes
  pub endpoint : Bytes
  pub session_idle_timeout : ℕ
  pub session_ttl : ℕ
  pub max_sessions : ℕ
  pub max_accounts_per_node : ℕ

unfoldable pub effective_failure_policy : JobConfig → Bytes
effective_failure_policy j =
    if bytes_eq j.failure_policy [] then codes "strict" else j.failure_policy

unfoldable pub effective_ingress : JobConfig → Bytes
effective_ingress j =
    if not (bytes_eq j.ingress [])
    then j.ingress
    else if not (bytes_eq j.endpoint [])
    then codes "endpoint"
    else if not (bytes_eq j.password [])
    then codes "shared"
    else codes "direct"

unfoldable pub shared_ingress : JobConfig → Bool
shared_ingress j = bytes_eq (effective_ingress j) (codes "shared")

unfoldable pub direct_ingress : JobConfig → Bool
direct_ingress j = bytes_eq (effective_ingress j) (codes "direct")

unfoldable pub automatic_failover : JobConfig → Bool
automatic_failover j =
    bytes_eq j.mode (codes "pinned")
    && (shared_ingress j || bytes_eq (effective_ingress j) (codes "endpoint"))
    && bytes_eq (effective_failure_policy j) (codes "failover")

-- Whether idle sessions of the job are reclaimed.
abbrev pub reclaims : JobConfig → Bool
reclaims j =
    bytes_eq j.mode (codes "pinned") && not (direct_ingress j) && ltb 0 j.session_idle_timeout
