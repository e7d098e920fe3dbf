-- ===== src/Config/Jobs/Rounds.antt =====
-- One round of the loop over the jobs: what a job that passes all tests is like.
use proxyfleet.Base.{
  ℕ, zero, suc, ◌≡◌, ◌≢◌, refl, inl, inr, false, none, Bytes, bytes_eq, is_nil, codes, sym, subst,
  arith, Option-cases, if_cases, ℤ, pos, negsuc,
}
use proxyfleet.Config.Jobs.{
  Job, Setup, Texts, Marks, elem, effective_ingress, normalized, or_text, identity_error,
  password_error,
}
use proxyfleet.Config.Jobs.Rules.{ingress_error, target_error, with_limits, or_number}
use proxyfleet.Config.Jobs.Loop.{
  with_durations, idle_error, accepted, job_error, finish_job, check_job,
}
use proxyfleet.Config.Jobs.Accepted.{
  or_else-none, LimitsOk, limits_error-LimitsOk, with_times, Timed, GivenTimes,
  with_durations-Timed, New, Fine, idle_error-reclaimed, OwnEndpoint, ingress_error-OwnEndpoint,
}

-- What the tests on texts and numbers show.
record Tested (c : Setup) (m : Marks) (j : Job) : Type 0 where
  fresh : New m j
  limits : LimitsOk (with_limits j)
  own : effective_ingress j ≡ codes "endpoint" → OwnEndpoint c m j

identity_error-new :
    (t : Texts) (c : Setup) (m : Marks) (j : Job)
    → identity_error t c m j ≡ none
    → elem j.name m.names ≡ false
unfolding identity_error
identity_error-new t c m j h = ground (arith, h)

password_error-new :
    (m : Marks) (j : Job)
    → password_error m j ≡ none
    → is_nil j.password ≡ false
    → elem j.password m.passwords ≡ false
unfolding password_error
password_error-new m j h some_password = ground (arith, h, some_password)

job_error-Tested :
    (t : Texts) (c : Setup) (m : Marks) (j : Job) → job_error t c m j ≡ none → Tested c m j
unfolding job_error
job_error-Tested t c m j h =
    let (e1, h1) = or_else-none _ _ h in
    let (identity, h2) = or_else-none (identity_error t c m j) _ h1 in
    let (password, h3) = or_else-none (password_error m j) _ h2 in
    let (ingress, h4) = or_else-none (ingress_error c m j) _ h3 in
    let (target, limits) = or_else-none (target_error t j) _ h4 in
    record {
      fresh = record {
        name = identity_error-new t c m j identity;
        password = password_error-new m j password;
        endpoint = λ e. (ingress_error-OwnEndpoint c m j ingress e).unused;
      };
      limits = limits_error-LimitsOk (with_limits j) limits;
      own = ingress_error-OwnEndpoint c m j ingress;
    }

-- A number that was given, that is, is not 0, is kept.
abbrev IsKept : ℤ → ℤ → Type 0
IsKept d e = d ≢ pos 0 → e ≡ d

-- An accepted job is the one given: its texts trimmed and in lower case, with the two policies'
-- defaults where they are empty; its other values as they were given, where they were.
pub record Given (t : Texts) (j k : Job) : Type 0 where
  pub name : k.name ≡ t.lower_trimmed j.name
  pub mode : k.mode ≡ t.lower_trimmed j.mode
  pub selection :
      is_nil (t.lower_trimmed j.selection) ≡ false → k.selection ≡ t.lower_trimmed j.selection
  pub failure_policy :
      is_nil (t.lower_trimmed j.failure_policy) ≡ false
      → k.failure_policy ≡ t.lower_trimmed j.failure_policy
  pub profile : k.profile ≡ t.lower_trimmed j.profile
  pub ingress : k.ingress ≡ t.lower_trimmed j.ingress
  pub endpoint : k.endpoint ≡ t.lower_trimmed j.endpoint
  pub target_url : k.target_url ≡ t.trimmed j.target_url
  pub password : k.password ≡ j.password
  pub body_contains : k.body_contains ≡ j.body_contains
  pub max_accounts_per_node : k.max_accounts_per_node ≡ j.max_accounts_per_node
  pub size : IsKept j.size k.size
  pub concurrency : IsKept j.concurrency k.concurrency
  pub max_sessions : IsKept j.max_sessions k.max_sessions
  pub probe_batch_size : IsKept j.probe_batch_size k.probe_batch_size
  pub probe_concurrency : IsKept j.probe_concurrency k.probe_concurrency
  pub max_response_bytes : IsKept j.max_response_bytes k.max_response_bytes
  pub expected_status : IsKept j.expected_status k.expected_status
  pub times : GivenTimes j k

or_number-IsKept : (d : ℤ) (n : ℕ) → IsKept d (or_number d n)
or_number-IsKept (pos zero) n h = absurd (h refl)
or_number-IsKept (pos (suc d)) n h = refl
or_number-IsKept (negsuc d) n h = refl

normalized-Given :
    (t : Texts) (j : Job) (w x y z : Bytes)
    → GivenTimes j (with_times (with_limits (normalized t j)) w x y z)
    → Given t j (with_times (with_limits (normalized t j)) w x y z)
unfolding with_times with_limits normalized
normalized-Given t j w x y z times = record {
  name = refl;
  mode = refl;
  selection = λ h. rw h refl;
  failure_policy = λ h. rw h refl;
  profile = refl;
  ingress = refl;
  endpoint = refl;
  target_url = refl;
  password = refl;
  body_contains = refl;
  max_accounts_per_node = refl;
  size =
      if_cases (λ e. IsKept j.size e)
        (bytes_eq (or_text (t.lower_trimmed j.selection) (codes "manual")) (codes "auto"))
        (λ _. or_number-IsKept j.size 5) (λ _ _. refl);
  concurrency = or_number-IsKept j.concurrency 8;
  max_sessions = or_number-IsKept j.max_sessions 1024;
  probe_batch_size = or_number-IsKept j.probe_batch_size 32;
  probe_concurrency = or_number-IsKept j.probe_concurrency 4;
  max_response_bytes = or_number-IsKept j.max_response_bytes 2097152;
  expected_status = or_number-IsKept j.expected_status 200;
  times = times;
}

limits-GivenTimes :
    (t : Texts) (j k : Job) → GivenTimes (with_limits (normalized t j)) k → GivenTimes j k
unfolding with_limits normalized
limits-GivenTimes t j k g = record {
  timeout = g.timeout;
  refresh_interval = g.refresh_interval;
  session_ttl = g.session_ttl;
  session_idle_timeout = g.session_idle_timeout;
}

Timed-Given : (t : Texts) (j k : Job) → Timed t (with_limits (normalized t j)) k → Given t j k
Timed-Given t j k timed = subst (Given t j) (sym timed.same) (
    normalized-Given t j _ _ _ _
      (subst (GivenTimes j) timed.same (limits-GivenTimes t j k timed.given)))

-- A job that one round of the loop lets through.
pub record Checked (t : Texts) (c : Setup) (m : Marks) (j k : Job) : Type 0 where
  pub given : Given t j k
  pub fresh : New m k
  pub fine : Fine t c k

-- Limits and durations leave the rest as it is.
record Kept (c : Setup) (m : Marks) (k : Job) : Type 0 where
  fresh : New m k
  limits : LimitsOk k
  own : effective_ingress k ≡ codes "endpoint" → OwnEndpoint c m k

Tested-Kept :
    (c : Setup) (m : Marks) (j : Job) (w x y z : Bytes)
    → Tested c m j
    → Kept c m (with_times (with_limits j) w x y z)
unfolding with_times with_limits effective_ingress
Tested-Kept c m j w x y z v = record {
  fresh = record { name = v.fresh.name; password = v.fresh.password; endpoint = v.fresh.endpoint };
  limits = record {
    size = v.limits.size;
    concurrency = v.limits.concurrency;
    max_sessions = v.limits.max_sessions;
    max_accounts_per_node = v.limits.max_accounts_per_node;
    probe_batch_size = v.limits.probe_batch_size;
    probe_concurrency = v.limits.probe_concurrency;
    max_response_bytes = v.limits.max_response_bytes;
    expected_status = v.limits.expected_status;
  };
  own = λ e. record { unused = (v.own e).unused; carried = (v.own e).carried };
}

finished-Checked :
    (t : Texts) (c : Setup) (m : Marks) (j k : Job)
    → Tested c m (normalized t j)
    → Timed t (with_limits (normalized t j)) k
    → idle_error t k ≡ none
    → Checked t c m j k
finished-Checked t c m j k v timed idle =
    let kept = subst (Kept c m) (sym timed.same) (Tested-Kept c m (normalized t j) _ _ _ _ v) in
    record {
      given = Timed-Given t j k timed;
      fresh = kept.fresh;
      fine = record {
        limits = kept.limits;
        durations = timed.durations;
        reclaimed = idle_error-reclaimed t k idle;
        carried = λ e. (kept.own e).carried;
      };
    }

pub accepted-accepted : {A : Type 0} (a b : A) → accepted a ≡ accepted b → a ≡ b
accepted-accepted a b h = ground (arith, h)

pub check_job-Checked :
    (t : Texts) (c : Setup) (m : Marks) (j k : Job)
    → check_job t c m j ≡ accepted k
    → Checked t c m j k
unfolding check_job
check_job-Checked t c m j k h =
    let n = normalized t j in
    elim (Option-cases (job_error t c m n)) [
      | inr (e, wrong) ↦ absurd (ground (arith, rw (wrong, check_job) at h))
      | inl right ↦
          let h1 = rw (right, check_job) at h in
          elim (Option-cases (with_durations t (with_limits n))) [
            | inl wrong ↦ absurd (ground (arith, rw wrong at h1))
            | inr (k', timed) ↦
                let h2 = rw timed at h1 in
                elim (Option-cases (idle_error t k')) [
                  | inr (e, wrong) ↦ absurd (ground (arith, rw (wrong, finish_job) at h2))
                  | inl idle ↦
                      subst (Checked t c m j) (accepted-accepted k' k (rw (idle, finish_job) at h2))
                        (finished-Checked t c m j k' (job_error-Tested t c m n right)
                          (with_durations-Timed t (with_limits n) k' timed) idle)
                ]
          ]
    ]
