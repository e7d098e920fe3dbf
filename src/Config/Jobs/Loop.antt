-- ===== src/Config/Jobs/Loop.antt =====
-- internal/config/jobs.go, `NormalizeJobs`: durations, and the loop over the jobs.
use proxyfleet.Base.{
  ℕ, zero, suc, ◌*◌, ◌&&◌, ◌||◌, ◌>>=◌, Bool, true, false, not, Option, none, some, List, [], ◌∷◌,
  Bytes, length, is_nil, ltb, if◌then◌else◌, or_else, bytes_eq, codes, ℤ, pos,
}
use proxyfleet.Monitor.Backoff.{minute, hour}
use proxyfleet.Config.Jobs.{
  Job, Endpoint, Setup, Texts, JobError, Marks, effective_ingress, normalized, raise, policy_error,
  identity_error, password_error, too_many_jobs, bad_duration, idle_needs_pinned,
}
use proxyfleet.Config.Jobs.Rules.{
  ingress_error, target_error, with_limits, limits_error, is_within, endpoint_named,
}

abbrev is_zero : ℤ → Bool
is_zero (pos zero) = true
is_zero _ = false

abbrev is_positive : Option ℤ → Bool
is_positive (some (pos (suc n))) = true
is_positive _ = false

-- What is kept of a text that parses as a duration: `"0"` for one that may be 0 and is.
unfoldable pub kept_duration : Bool → ℕ → ℕ → Bytes → Option ℤ → Option Bytes
kept_duration may_be_zero low high text none = none
kept_duration may_be_zero low high text (some d) =
    if may_be_zero && is_zero d
    then some (codes "0")
    else if is_within low high d
    then some text
    else none

-- One round of the loop over the four durations.
unfoldable pub settled : Texts → Bool → Bytes → ℕ → ℕ → Bytes → Option Bytes
settled t may_be_zero fallback low high value =
    let text = if is_nil value then fallback else value in
    kept_duration may_be_zero low high text (t.parse_duration text)

unfoldable pub with_durations : Texts → Job → Option Job
with_durations t j = do
  timeout ← settled t false (codes "15s") 100000000 (2 * minute) j.timeout
  refresh ← settled t false (codes "10m") minute (24 * hour) j.refresh_interval
  ttl ← settled t true (codes "0") minute (7 * 24 * hour) j.session_ttl
  idle ← settled t true (codes "0") minute (30 * 24 * hour) j.session_idle_timeout
  some (record j {
    timeout = timeout;
    refresh_interval = refresh;
    session_ttl = ttl;
    session_idle_timeout = idle;
  })

-- Its first test is `IdleTimeout() > 0`.
unfoldable pub idle_error : Texts → Job → Option JobError
idle_error t j =
    raise
      (is_positive (t.parse_duration j.session_idle_timeout)
        && (not (bytes_eq j.mode (codes "pinned"))
            || bytes_eq (effective_ingress j) (codes "direct")))
      idle_needs_pinned

pub data Outcome (A : Type 0) : Type 0 where
  refused : JobError → Outcome A
  accepted : A → Outcome A

-- The tests on the texts and the numbers of a job, in their order.
unfoldable pub job_error : Texts → Setup → Marks → Job → Option JobError
job_error t c m j = or_else (policy_error j) (
    or_else (identity_error t c m j) (
      or_else (password_error m j) (
        or_else (ingress_error c m j) (or_else (target_error t j) (limits_error (with_limits j))))))

unfoldable pub marked : Marks → Job → Marks
marked m j = record {
  names = j.name ∷ m.names;
  passwords = if is_nil j.password then m.passwords else j.password ∷ m.passwords;
  endpoints =
      if bytes_eq (effective_ingress j) (codes "endpoint")
      then j.endpoint ∷ m.endpoints
      else m.endpoints;
}

-- The tests behind the durations.
abbrev pub finish_job : Texts → Option Job → Outcome Job
finish_job t none = refused bad_duration
finish_job t (some j) = elim (idle_error t j) [ none ↦ accepted j | some e ↦ refused e ]

-- One round of the loop over jobs.
unfoldable pub check_job : Texts → Setup → Marks → Job → Outcome Job
check_job t c m j =
    let job = normalized t j in
    elim (job_error t c m job) [
      | some e ↦ refused e
      | none ↦ finish_job t (with_durations t (with_limits job))
    ]

abbrev pub first_job : Job → Outcome (List Job) → Outcome (List Job)
first_job j (refused e) = refused e
first_job j (accepted js) = accepted (j ∷ js)

unfoldable pub check_jobs : Texts → Setup → Marks → List Job → Outcome (List Job)
check_jobs t c m [] = accepted []
check_jobs t c m (j ∷ js) = elim (check_job t c m j) [
  | refused e ↦ refused e
  | accepted job ↦ first_job job (check_jobs t c (marked m job) js)
]

-- The map of endpoints by name keeps the last one of a name.
unfoldable pub endpoint_passwords : List Endpoint → List Bytes
endpoint_passwords [] = []
endpoint_passwords (e ∷ es) =
    let rest = endpoint_passwords es in
    elim (endpoint_named e.name es) [
      | some _ ↦ rest
      | none ↦ if is_nil e.password then rest else e.password ∷ rest
    ]

unfoldable pub normalize_jobs : Texts → Setup → List Job → Outcome (List Job)
normalize_jobs t c js =
    if ltb 64 (length js)
    then refused too_many_jobs
    else check_jobs t c
        (record { names = []; passwords = endpoint_passwords c.endpoints; endpoints = [] }) js
