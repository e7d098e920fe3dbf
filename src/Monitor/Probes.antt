-- ===== src/Monitor/Probes.antt =====
-- internal/monitor/manager.go: the results of probes. An entry's probes run outside its locks; each
-- result carries the generation, the number and the start of its call, by which
-- `markProbeResultGeneration` tells results that still count from results that were overtaken.
-- Each function is one section under `probeMu`. The error texts, the latency average, the
-- admission slots and the contexts' deadlines are left out.
pub mod History
pub mod Order
pub mod Barriers
pub mod Shown
use proxyfleet.Base.{
  ℕ, ◌+◌, ◌-◌, ◌/◌, ◌≡◌, Bool, true, false, not, ◌&&◌, ◌||◌, ◌==◌, ltb, leb, if◌then◌else◌, Option,
  none, some, List, [], ◌∷◌, ◌++◌, drop, length, Bytes, bytes_eq, is_nil,
}
use proxyfleet.Monitor.Entry.{
  Entry, HealthState, restore_health_state, record_failure, record_success,
  invalidate_probe_results, clear_runtime_callbacks,
}

-- What a probe may end with: `context.Canceled`, `errProbeSuperseded`, or any other error.
pub data ProbeError : Type 0 where
  canceled : ProbeError
  superseded : ProbeError
  failed : ProbeError

-- `from_probe` tells the sources "probe" and "traffic" apart.
pub record TimelineEvent : Type 0 where
  pub time : ℕ
  pub from_probe : Bool
  pub success : Bool
  pub latency_ms : ℕ

-- `inFlightProbe`, without its channel and its result, which the waiters read.
pub record Call : Type 0 where
  pub generation : ℕ
  pub id : ℕ
  pub started_at : ℕ

pub record Version : Type 0 where
  pub generation : ℕ
  pub id : ℕ
  pub started_at : ℕ
  pub completed_at : ℕ

-- An entry with the fields of its probes and its timeline.
pub record Probed : Type 0 where
  pub entry : Entry
  pub has_probe : Bool
  pub identity : Bytes
  pub next_id : ℕ
  pub applied_id : ℕ
  pub applied_success : Bool
  pub completed_at : ℕ
  pub last_probe_at : ℕ
  pub last_probe : ℕ
  pub consecutive_fails : ℕ
  pub timeline : List TimelineEvent
  pub call : Option Call

-- What the `applyRouting` callback does to the entry: it never invalidates probes, as the comment on
-- `InvalidateProbeResults` demands.
pub record Routing : Type 0 where
  pub apply : Entry → Entry
  pub keeps_generation : (e : Entry) → (apply e).probe_generation ≡ e.probe_generation

-- A publisher calls `publish` with a routing change, or refuses the result.
pub data Publisher : Type 0 where
  no_publisher : Publisher
  refusing : Publisher
  publishing : Routing → Publisher

abbrev pub max_timeline_size : ℕ
max_timeline_size = 20

unfoldable pub append_timeline : TimelineEvent → List TimelineEvent → List TimelineEvent
append_timeline event timeline =
    if leb max_timeline_size (length timeline)
    then drop 1 timeline ++ (event ∷ [])
    else timeline ++ (event ∷ [])

abbrev pub is_success : Option ProbeError → Bool
is_success none = true
is_success (some _) = false

abbrev pub is_canceled : Option ProbeError → Bool
is_canceled (some canceled) = true
is_canceled _ = false

abbrev pub is_superseded : Option ProbeError → Bool
is_superseded (some superseded) = true
is_superseded _ = false

-- The latency in nanoseconds, rounded up to 1 ms where it would be shown as 0.
unfoldable pub latency_ms_of : ℕ → ℕ
latency_ms_of latency = let ms = latency / 1000000 in if ltb 0 latency && ms == 0 then 1 else ms

abbrev pub probe_event : ℕ → ℕ → Option ProbeError → TimelineEvent
probe_event now latency err = record {
  time = now;
  from_probe = true;
  success = is_success err;
  latency_ms = latency_ms_of latency;
}

abbrev pub traffic_event : ℕ → Bool → ℕ → TimelineEvent
traffic_event now success latency = record {
  time = now;
  from_probe = false;
  success = success;
  latency_ms = latency_ms_of latency;
}

-- `recordFailure`, `recordSuccess` and `recordSuccessWithLatency`.
unfoldable pub note_failure : ℕ → Probed → Probed
note_failure now p = record p {
  entry = record_failure now p.entry;
  timeline = append_timeline (traffic_event now false 0) p.timeline;
}

unfoldable pub note_success : ℕ → Probed → Probed
note_success now p = record p {
  entry = record_success now p.entry;
  timeline = append_timeline (traffic_event now true 0) p.timeline;
}

unfoldable pub note_success_with_latency : ℕ → ℕ → Probed → Probed
note_success_with_latency now latency p = record p {
  entry = record_success now p.entry;
  last_probe = latency;
  timeline = append_timeline (traffic_event now true latency) p.timeline;
}

-- `clearDiagnostics`, with whether there was a record.
unfoldable pub clear_diagnostics : Probed → Bool × Probed
clear_diagnostics p = (
  p.entry.diagnostics_visible
      || not (p.entry.failure == 0)
      || not (p.entry.success == 0)
      || not (is_nil p.timeline),
  record p {
    entry = record p.entry {
      failure = 0;
      success = 0;
      last_fail = 0;
      last_ok = 0;
      diagnostics_visible = false;
    };
    timeline = [];
  },
)

-- What `SetProbeTarget` does to each entry when the target has changed.
unfoldable pub change_target : Probed → Probed
change_target p = record p {
  entry = record p.entry {
    probe_generation = p.entry.probe_generation + 1;
    initial_check_done = false;
    available = false;
  };
}

-- `RestoreHealthState`; the last probe's latency and time and the failed probes in a row come from
-- the record as well.
unfoldable pub restore_health : ℕ → HealthState → ℕ → ℕ → ℕ → Probed → Probed
restore_health now h last_probe last_probe_at fails p = record p {
  entry = restore_health_state now h p.entry;
  last_probe = last_probe;
  last_probe_at = last_probe_at;
  consecutive_fails = fails;
}

unfoldable pub mark_success : ℕ → ℕ → Probed → Probed
mark_success now latency p = record p {
  entry = record p.entry {
    initial_check_done = true;
    diagnostics_visible = true;
    last_ok = now;
    available = not p.entry.blacklist && not p.entry.cooling_down;
  };
  last_probe_at = now;
  last_probe = latency;
  consecutive_fails = 0;
  timeline = append_timeline (probe_event now latency none) p.timeline;
}

unfoldable pub mark_failure : ℕ → ℕ → Probed → Probed
mark_failure now latency p = record p {
  entry = record p.entry {
    initial_check_done = true;
    diagnostics_visible = true;
    last_fail = now;
    available = false;
  };
  last_probe_at = now;
  consecutive_fails = p.consecutive_fails + 1;
  timeline = append_timeline (probe_event now latency (some failed)) p.timeline;
}

unfoldable pub mark_probe_result_at : ℕ → ℕ → Option ProbeError → Probed → Probed
mark_probe_result_at now latency none p = mark_success now latency p
mark_probe_result_at now latency (some canceled) p = p
mark_probe_result_at now latency (some _) p = mark_failure now latency p

-- A waiter's timeout and a cancellation are no observations.
abbrev pub is_waiting : Version → Option ProbeError → Bool
is_waiting v err = v.id == 0 && not (is_success err) || is_canceled err

-- An outcome that an outcome already applied has overtaken, or is.
abbrev pub is_repeated : Version → Option ProbeError → Probed → Bool
is_repeated v err p =
    ltb 0 v.id
    && (ltb v.id p.applied_id
        || v.id == p.applied_id && (p.applied_success || not (is_success err)))

-- Traffic has shown the node's state since the probe started.
abbrev pub has_newer_traffic : ℕ → Entry → Bool
has_newer_traffic started_at e =
    leb started_at e.last_passive_success || leb started_at e.last_passive_failure

abbrev pub note_applied : ℕ → Option ProbeError → Probed → Probed
note_applied id err p =
    if ltb 0 id then record p { applied_id = id; applied_success = is_success err } else p

abbrev pub route : Option Routing → Probed → Probed
route none p = p
route (some r) p = record p { entry = r.apply p.entry }

-- `publish` within `markProbeResultGeneration`.
unfoldable pub publish :
    Option Routing → Version → ℕ → Option ProbeError → ℕ → Probed → Bool × Probed
publish routing v latency err now p =
    if not (v.generation == p.entry.probe_generation)
    then (false, p)
    else if is_waiting v err
    then (true, p)
    else if is_repeated v err p
    then (true, p)
    else if not (v.started_at == 0) && has_newer_traffic v.started_at p.entry
    then (false, p)
    else (
      true,
      note_applied v.id err (
          mark_probe_result_at (if v.completed_at == 0 then now else v.completed_at) latency err
            (route routing p)),
    )

unfoldable pub publish_through :
    Publisher → Version → ℕ → Option ProbeError → ℕ → Probed → Bool × Probed
publish_through no_publisher v latency err now p = publish none v latency err now p
publish_through refusing v latency err now p = (false, p)
publish_through (publishing r) v latency err now p = publish (some r) v latency err now p

unfoldable pub mark_probe_result_generation :
    Publisher → Version → ℕ → Option ProbeError → ℕ → Probed → Bool × Probed
mark_probe_result_generation publisher v latency err now p =
    if is_superseded err then (false, p) else publish_through publisher v latency err now p

-- What `executeProbeGeneration` decides under its lock.
pub data Admission : Type 0 where
  no_probe : Admission
  joined : Call → Admission
  stopped_manager : Admission
  started : Call → Admission

unfoldable pub start_call : ℕ → Probed → Admission × Probed
start_call now p =
    let call : Call = record {
      generation = p.entry.probe_generation;
      id = p.next_id + 1;
      started_at = now;
    } in
    (started call, record p { next_id = p.next_id + 1; call = some call })

abbrev join_or_start : Bool → ℕ → Option Call → Probed → Admission × Probed
join_or_start stopped now (some call) p = (joined call, p)
join_or_start stopped now none p = if stopped then (stopped_manager, p) else start_call now p

unfoldable pub execute_probe_generation : Bool → ℕ → Probed → Admission × Probed
execute_probe_generation stopped now p =
    if p.has_probe then join_or_start stopped now p.call p else (no_probe, p)

-- The version that a call's own publication carries, and what a deadline makes of its error.
abbrev pub version_of : ℕ → Call → Version
version_of completed_at c = record {
  generation = c.generation;
  id = c.id;
  started_at = c.started_at;
  completed_at = completed_at;
}

-- The version that a waiter of the call carries.
abbrev pub waiter_version : Call → Version
waiter_version c = record { generation = c.generation; id = c.id; started_at = 0; completed_at = 0 }

-- A publication ends with the completion time, if its call is still current.
unfoldable pub note_completed : ℕ → Call → Probed → Probed
note_completed completed_at c p =
    if c.generation == p.entry.probe_generation then record p { completed_at = completed_at } else p

abbrev without_call : Call → Option Call → Option Call
without_call c none = none
without_call c (some d) = if c.id == d.id then none else some d

unfoldable pub close_call : Call → Probed → Probed
close_call c p = record p { call = without_call c p.call }

-- What a waiter reads once the call is closed.
unfoldable pub wait_for_probe_call : Call → Option ProbeError → Probed → Option ProbeError × Version
wait_for_probe_call c result p =
    if c.generation == p.entry.probe_generation
    then (result, waiter_version c)
    else (some superseded, waiter_version c)

unfoldable pub set_probe_publisher : Bytes → Bool → Probed → Probed
set_probe_publisher identity has_probe p =
    let unchanged = not (is_nil identity) && bytes_eq identity p.identity in
    record p {
      entry = record p.entry {
        probe_generation = p.entry.probe_generation + 1;
        initial_check_done = if unchanged then p.entry.initial_check_done else false;
        available = if unchanged then p.entry.available else false;
      };
      has_probe = has_probe;
      identity = identity;
    }

unfoldable pub clear_callbacks : Probed → Probed
unfolding clear_runtime_callbacks
clear_callbacks p = record p { entry = clear_runtime_callbacks p.entry; has_probe = false }

unfoldable pub invalidate : ℕ → Probed → Probed
unfolding invalidate_probe_results
invalidate now p = record p { entry = invalidate_probe_results now p.entry }

abbrev is_call : Option Call → Bool
is_call none = false
is_call (some _) = true

-- Something has been observed since a candidate's check started, or is being observed.
unfoldable pub is_overtaken : ℕ → Probed → Bool
is_overtaken started_at p =
    is_call p.call
    || leb started_at p.completed_at
    || leb started_at p.entry.probe_invalidated_at
    || leb started_at p.last_probe_at
    || has_newer_traffic started_at p.entry

unfoldable pub apply_validated_probe :
    Option Routing → Bytes → ℕ → ℕ → ℕ → Option ProbeError → Probed → Bool × Probed
apply_validated_probe routing identity started_at completed_at latency err p =
    if is_nil identity || started_at == 0 || ltb completed_at started_at || is_canceled err
    then (false, p)
    else if not (bytes_eq p.identity identity) || is_overtaken started_at p
    then (false, p)
    else (
      true,
      mark_probe_result_at completed_at latency err (
          route routing (record p {
            entry = record p.entry { probe_generation = p.entry.probe_generation + 1 };
          })),
    )
