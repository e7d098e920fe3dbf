-- ===== src/Config/Jobs/Accepted.antt =====
-- What an accepted list of jobs satisfies.
use proxyfleet.Base.{
  ℕ, suc, ◌*◌, ◌≤◌, ◌≡◌, ◌≢◌, ◌⊎◌, inl, inr, ◌>>=◌, Bool, true, false, Option, none, some, Bytes,
  is_nil, if◌then◌else◌, or_else, bytes_eq, bytes_discrete, codes, ℤ, pos, negsuc, refl, sym, ap,
  subst, ◌∙◌, arith, Option-cases, Bool-cases,
}
use proxyfleet.Monitor.Backoff.{minute, hour}
use proxyfleet.Config.Sessions.{valid_session_credentials}
use proxyfleet.Config.Jobs.{
  Job, Endpoint, Setup, Texts, JobError, Marks, elem, effective_ingress, raise,
}
use proxyfleet.Config.Jobs.Rules.{
  ingress_error, endpoint_error, limits_error, is_within, endpoint_named,
}
use proxyfleet.Config.Jobs.Loop.{kept_duration, settled, with_durations, idle_error}

pub or_else-none : (a b : Option JobError) → or_else a b ≡ none → (a ≡ none) × (b ≡ none)
or_else-none none b h = (refl, h)
or_else-none (some e) b h = absurd (ground (arith, h))

pub raise-none : (wrong : Bool) (e : JobError) → raise wrong e ≡ none → wrong ≡ false
raise-none true e h = absurd (ground (arith, h))
raise-none false e h = refl

-- A number between two bounds.
pub record Within (low high : ℕ) (d : ℤ) : Type 0 where
  pub value : ℕ
  pub is_value : d ≡ pos value
  pub above : low ≤ value
  pub below : value ≤ high

is_within-Within : (low high : ℕ) (d : ℤ) → is_within low high d ≡ true → Within low high d
is_within-Within low high (pos n) h = record {
  value = n;
  is_value = refl;
  above = ground (arith, h);
  below = ground (arith, h);
}
is_within-Within low high (negsuc n) h = absurd (ground (arith, h))

pub record LimitsOk (j : Job) : Type 0 where
  pub size : Within 0 64 j.size
  pub concurrency : Within 1 1024 j.concurrency
  pub max_sessions : Within 1 4096 j.max_sessions
  pub max_accounts_per_node : Within 0 4096 j.max_accounts_per_node
  pub probe_batch_size : Within 1 256 j.probe_batch_size
  pub probe_concurrency : Within 1 16 j.probe_concurrency
  pub max_response_bytes : Within 1 8388608 j.max_response_bytes
  pub expected_status : Within 200 299 j.expected_status

pub limits_error-LimitsOk : (j : Job) → limits_error j ≡ none → LimitsOk j
unfolding limits_error
limits_error-LimitsOk j h =
    let (accounts, rest) = or_else-none _ _ h in
    let range = raise-none _ _ rest in
    record {
      size = is_within-Within 0 64 j.size (ground (arith, range));
      concurrency = is_within-Within 1 1024 j.concurrency (ground (arith, range));
      max_sessions = is_within-Within 1 4096 j.max_sessions (ground (arith, range));
      max_accounts_per_node =
          is_within-Within 0 4096 j.max_accounts_per_node (ground (arith, raise-none _ _ accounts));
      probe_batch_size = is_within-Within 1 256 j.probe_batch_size (ground (arith, range));
      probe_concurrency = is_within-Within 1 16 j.probe_concurrency (ground (arith, range));
      max_response_bytes = is_within-Within 1 8388608 j.max_response_bytes (ground (arith, range));
      expected_status = is_within-Within 200 299 j.expected_status (ground (arith, range));
    }

-- A text that parses as a duration between two bounds, or as 0 where that is allowed.
pub record Duration (t : Texts) (low high : ℕ) (text : Bytes) : Type 0 where
  pub value : ℤ
  pub parsed : t.parse_duration text ≡ some value
  pub bounded : Within low high value

-- A duration, or the text that 0 is kept as.
abbrev pub DurationOr0 : Bool → Texts → ℕ → ℕ → Bytes → Type 0
DurationOr0 may_be_zero t low high text =
    ((may_be_zero ≡ true) × (text ≡ codes "0")) ⊎ Duration t low high text

some-some : {A : Type 0} (a b : A) → some a ≡ some b → a ≡ b
some-some a b h = ground (arith, h)

kept_duration-Duration :
    (t : Texts) (z : Bool) (low high : ℕ) (text kept : Bytes) (o : Option ℤ)
    → t.parse_duration text ≡ o
    → kept_duration z low high text o ≡ some kept
    → DurationOr0 z t low high kept
unfolding kept_duration
kept_duration-Duration t z low high text kept none e h = absurd (ground (arith, h))
kept_duration-Duration t z low high text kept (some d) e h =
    elim (Bool-cases (is_within low high d)) [
      | inl inside ↦ elim (Bool-cases (bytes_eq kept text)) [
        | inl same ↦
            let same' : text ≡ kept = ground (arith, same) in
            inr (record {
              value = d;
              parsed = ap t.parse_duration (sym same') ∙ e;
              bounded = is_within-Within low high d inside;
            })
        | inr other ↦ inl (ground (arith, h, inside, other))
      ]
      | inr outside ↦ inl (ground (arith, h, outside))
    ]

settled-Duration :
    (t : Texts) (z : Bool) (fallback : Bytes) (low high : ℕ) (value text : Bytes)
    → settled t z fallback low high value ≡ some text
    → DurationOr0 z t low high text
unfolding settled
settled-Duration t z fallback low high value text h =
    kept_duration-Duration t z low high (if is_nil value then fallback else value) text _ refl h

pub record DurationsOk (t : Texts) (j : Job) : Type 0 where
  pub timeout : DurationOr0 false t 100000000 (2 * minute) j.timeout
  pub refresh_interval : DurationOr0 false t minute (24 * hour) j.refresh_interval
  pub session_ttl : DurationOr0 true t minute (7 * 24 * hour) j.session_ttl
  pub session_idle_timeout : DurationOr0 true t minute (30 * 24 * hour) j.session_idle_timeout

unfoldable pub with_times : Job → Bytes → Bytes → Bytes → Bytes → Job
with_times j timeout refresh ttl idle = record j {
  timeout = timeout;
  refresh_interval = refresh;
  session_ttl = ttl;
  session_idle_timeout = idle;
}

-- A duration that was given is kept, or is 0 and spelled so.
abbrev pub IsGiven : Bool → Bytes → Bytes → Type 0
IsGiven may_be_zero value text =
    is_nil value ≡ false → (text ≡ value) ⊎ ((may_be_zero ≡ true) × (text ≡ codes "0"))

pub record GivenTimes (j k : Job) : Type 0 where
  pub timeout : IsGiven false j.timeout k.timeout
  pub refresh_interval : IsGiven false j.refresh_interval k.refresh_interval
  pub session_ttl : IsGiven true j.session_ttl k.session_ttl
  pub session_idle_timeout : IsGiven true j.session_idle_timeout k.session_idle_timeout

kept_duration-given :
    (b : Bool) (low high : ℕ) (text : Bytes) (d : Option ℤ) (w : Bytes)
    → kept_duration b low high text d ≡ some w
    → (w ≡ text) ⊎ ((b ≡ true) × (w ≡ codes "0"))
unfolding kept_duration
kept_duration-given b low high text none w h = absurd (ground (arith, h))
kept_duration-given b low high text (some d) w h = ground (arith, h)

settled-IsGiven :
    (t : Texts) (b : Bool) (fallback : Bytes) (low high : ℕ) (value w : Bytes)
    → settled t b fallback low high value ≡ some w
    → IsGiven b value w
unfolding settled
settled-IsGiven t b fallback low high value w h given =
    kept_duration-given b low high value (t.parse_duration value) w (rw given at h)

-- The job behind the durations, and that they are right.
pub record Timed (t : Texts) (j k : Job) : Type 0 where
  pub durations : DurationsOk t k
  pub given : GivenTimes j k
  pub same : k ≡ with_times j k.timeout k.refresh_interval k.session_ttl k.session_idle_timeout

-- Four values that are all there.
record Four {A : Type 0} (a b c d : Option Bytes) (f : Bytes → Bytes → Bytes → Bytes → A) (k : A)
    : Type 0 where
  one : Bytes
  two : Bytes
  three : Bytes
  four : Bytes
  is_one : a ≡ some one
  is_two : b ≡ some two
  is_three : c ≡ some three
  is_four : d ≡ some four
  result : f one two three four ≡ k

all_some :
    {A : Type 0} (a b c d : Option Bytes) (f : Bytes → Bytes → Bytes → Bytes → A) (k : A)
    → (a >>= λ w. b >>= λ x. c >>= λ y. d >>= λ z. some (f w x y z)) ≡ some k
    → Four a b c d f k
all_some none b c d f k h = absurd (ground (arith, h))
all_some (some w) none c d f k h = absurd (ground (arith, h))
all_some (some w) (some x) none d f k h = absurd (ground (arith, h))
all_some (some w) (some x) (some y) none f k h = absurd (ground (arith, h))
all_some (some w) (some x) (some y) (some z) f k h = record {
  one = w;
  two = x;
  three = y;
  four = z;
  is_one = refl;
  is_two = refl;
  is_three = refl;
  is_four = refl;
  result = some-some (f w x y z) k h;
}

pub with_durations-Timed : (t : Texts) (j k : Job) → with_durations t j ≡ some k → Timed t j k
unfolding with_durations with_times
with_durations-Timed t j k h =
    let all =
      all_some (settled t false (codes "15s") 100000000 (2 * minute) j.timeout)
        (settled t false (codes "10m") minute (24 * hour) j.refresh_interval)
        (settled t true (codes "0") minute (7 * 24 * hour) j.session_ttl)
        (settled t true (codes "0") minute (30 * 24 * hour) j.session_idle_timeout) (with_times j) k
        h in
    subst (Timed t j) all.result (record {
      durations = record {
        timeout = settled-Duration t false _ _ _ j.timeout all.one all.is_one;
        refresh_interval = settled-Duration t false _ _ _ j.refresh_interval all.two all.is_two;
        session_ttl = settled-Duration t true _ _ _ j.session_ttl all.three all.is_three;
        session_idle_timeout =
            settled-Duration t true _ _ _ j.session_idle_timeout all.four all.is_four;
      };
      given = record {
        timeout = settled-IsGiven t false _ _ _ j.timeout all.one all.is_one;
        refresh_interval = settled-IsGiven t false _ _ _ j.refresh_interval all.two all.is_two;
        session_ttl = settled-IsGiven t true _ _ _ j.session_ttl all.three all.is_three;
        session_idle_timeout =
            settled-IsGiven t true _ _ _ j.session_idle_timeout all.four all.is_four;
      };
      same = refl;
    })

-- What a job adds to what the loop has seen is new.
pub record New (m : Marks) (k : Job) : Type 0 where
  pub name : elem k.name m.names ≡ false
  pub password : is_nil k.password ≡ false → elem k.password m.passwords ≡ false
  pub endpoint : effective_ingress k ≡ codes "endpoint" → elem k.endpoint m.endpoints ≡ false

-- What an accepted job is like in itself.
pub record Fine (t : Texts) (c : Setup) (k : Job) : Type 0 where
  pub limits : LimitsOk k
  pub durations : DurationsOk t k
  pub reclaimed :
      (n : ℕ)
      → t.parse_duration k.session_idle_timeout ≡ some (pos (suc n))
      → (k.mode ≡ codes "pinned") × (effective_ingress k ≢ codes "direct")
  pub carried :
      effective_ingress k ≡ codes "endpoint"
      → k.mode ≡ codes "pinned"
      → (e : Endpoint) × (endpoint_named k.endpoint c.endpoints ≡ some e)
        × (valid_session_credentials e.username e.password ≡ true)

pub bytes_eq_refl : (a b : Bytes) → a ≡ b → bytes_eq a b ≡ true
bytes_eq_refl a b h = ground (arith, h)

bytes_eq-true : (a b : Bytes) → bytes_eq a b ≡ true → a ≡ b
bytes_eq-true a b h = ground (arith, h)

pub idle_error-reclaimed :
    (t : Texts) (k : Job)
    → idle_error t k ≡ none
    → (n : ℕ) → t.parse_duration k.session_idle_timeout ≡ some (pos (suc n))
    → (k.mode ≡ codes "pinned") × (effective_ingress k ≢ codes "direct")
unfolding idle_error
idle_error-reclaimed t k h n parsed =
    let right = rw (parsed, idle_error) at h in
    (
      bytes_eq-true k.mode (codes "pinned") (ground (arith, right)),
      λ e. ground (arith, right, bytes_eq_refl (effective_ingress k) (codes "direct") e),
    )

-- An endpoint of a job's own.
pub record OwnEndpoint (c : Setup) (m : Marks) (j : Job) : Type 0 where
  pub unused : elem j.endpoint m.endpoints ≡ false
  pub carried :
      j.mode ≡ codes "pinned"
      → (e : Endpoint) × (endpoint_named j.endpoint c.endpoints ≡ some e)
        × (valid_session_credentials e.username e.password ≡ true)

endpoint_error-OwnEndpoint :
    (c : Setup) (m : Marks) (j : Job) → endpoint_error c m j ≡ none → OwnEndpoint c m j
unfolding endpoint_error
endpoint_error-OwnEndpoint c m j h = elim (Option-cases (endpoint_named j.endpoint c.endpoints)) [
  | inl absent ↦ absurd (ground (arith, rw (absent, endpoint_error) at h))
  | inr (e, found) ↦
      let right = rw (found, endpoint_error) at h in
      record {
        unused = ground (arith, right);
        carried = λ pinned.
            (e, found, ground (arith, right, bytes_eq_refl j.mode (codes "pinned") pinned));
      }
]

pub ingress_error-OwnEndpoint :
    (c : Setup) (m : Marks) (j : Job)
    → ingress_error c m j ≡ none
    → effective_ingress j ≡ codes "endpoint"
    → OwnEndpoint c m j
unfolding ingress_error endpoint_error bytes_discrete
ingress_error-OwnEndpoint c m j h e = endpoint_error-OwnEndpoint c m j (rw (e, ingress_error) at h)
