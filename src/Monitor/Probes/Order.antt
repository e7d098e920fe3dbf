-- ===== src/Monitor/Probes/Order.antt =====
-- Which outcomes of an entry's probes are still applied.
use proxyfleet.Base.{
  ℕ, ◌+◌, ◌*◌, ◌≤◌, ◌<◌, ◌≡◌, ◌==◌, Bytes, Bool, true, false, refl, Option, none, some, List, [],
  ◌∷◌, ◌⊎◌, inl, inr, if◌then◌else◌, if_cases, not, ◌&&◌, ◌++◌, ◌∙◌, arith,
}
use proxyfleet.Monitor.Probes.{
  Probed, ProbeError, canceled, superseded, failed, Version, Publisher, no_publisher, refusing,
  publishing, Routing, is_success, is_superseded, is_waiting, is_repeated, has_newer_traffic,
  note_applied, route, mark_probe_result_generation, mark_probe_result_at, mark_success,
  mark_failure, publish, publish_through, execute_probe_generation, start_call, note_completed,
  close_call, set_probe_publisher, clear_callbacks, invalidate, apply_validated_probe, note_failure,
  note_success, note_success_with_latency, change_target, restore_health, clear_diagnostics,
}
use proxyfleet.Monitor.Probes.History.{
  Event, mark, execute, complete, finish, install, retire, bar, import_check, traffic_failure,
  traffic_success, timed_success, ban, unban, cool, uncool, checked, told_available, retarget,
  restore, forget, step, run,
}

-- The last outcome applied: a later call's is greater, and so is a success after a failure.
abbrev rank : Probed → ℕ
rank p = p.applied_id * 2 + (if p.applied_success then 1 else 0)

rank-mark_at :
    (now latency : ℕ) (err : Option ProbeError) (p : Probed)
    → rank (mark_probe_result_at now latency err p) ≡ rank p
unfolding mark_probe_result_at mark_success mark_failure
rank-mark_at now latency none p = refl
rank-mark_at now latency (some canceled) p = refl
rank-mark_at now latency (some superseded) p = refl
rank-mark_at now latency (some failed) p = refl

rank-route : (r : Option Routing) (p : Probed) → rank (route r p) ≡ rank p
rank-route none p = refl
rank-route (some r) p = refl

rank-publish :
    (r : Option Routing) (v : Version) (latency : ℕ) (err : Option ProbeError) (now : ℕ)
    (p : Probed)
    → rank p ≤ rank (publish r v latency err now p).1
unfolding publish
rank-publish r v latency err now p =
    let at = if v.completed_at == 0 then now else v.completed_at in
    ground (arith, rank-mark_at at latency err (route r p), rank-route r p)

rank-mark :
    (u : Publisher) (v : Version) (latency : ℕ) (err : Option ProbeError) (now : ℕ) (p : Probed)
    → rank p ≤ rank (mark_probe_result_generation u v latency err now p).1
unfolding mark_probe_result_generation publish_through
rank-mark no_publisher v latency err now p = ground (arith, rank-publish none v latency err now p)
rank-mark refusing v latency err now p = ground arith
rank-mark (publishing r) v latency err now p =
    ground (arith, rank-publish (some r) v latency err now p)

rank-import :
    (r : Option Routing) (identity : Bytes) (started_at completed_at latency : ℕ)
    (err : Option ProbeError) (p : Probed)
    → rank (apply_validated_probe r identity started_at completed_at latency err p).1 ≡ rank p
unfolding apply_validated_probe
rank-import r identity started_at completed_at latency err p =
    let q : Probed = record p {
      entry = record p.entry { probe_generation = p.entry.probe_generation + 1 };
    } in
    ground (arith, rank-mark_at completed_at latency err (route r q), rank-route r q)

rank-execute :
    (stopped : Bool) (now : ℕ) (p : Probed)
    → rank (execute_probe_generation stopped now p).1 ≡ rank p
unfolding execute_probe_generation start_call
rank-execute stopped now p = ground arith

rank-step : (e : Event) (p : Probed) → rank p ≤ rank (step e p)
unfolding step note_completed close_call set_probe_publisher clear_callbacks invalidate note_failure
    note_success note_success_with_latency change_target restore_health clear_diagnostics
rank-step (mark u v latency err now) p = rank-mark u v latency err now p
rank-step (execute stopped now) p = ground (arith, rank-execute stopped now p)
rank-step (complete at c) p = ground arith
rank-step (finish c) p = ground arith
rank-step (install identity has_probe) p = ground arith
rank-step retire p = ground arith
rank-step (bar now) p = ground arith
rank-step (import_check r identity started_at completed_at latency err) p =
    ground (arith, rank-import r identity started_at completed_at latency err p)
rank-step (traffic_failure now) p = ground arith
rank-step (traffic_success now) p = ground arith
rank-step (timed_success now latency) p = ground arith
rank-step (ban until) p = ground arith
rank-step unban p = ground arith
rank-step (cool until) p = ground arith
rank-step uncool p = ground arith
rank-step (checked available) p = ground arith
rank-step (told_available available) p = ground arith
rank-step retarget p = ground arith
rank-step (restore now h last_probe last_probe_at fails) p = ground arith
rank-step forget p = ground arith

run-append : (es fs : List Event) (p : Probed) → run (es ++ fs) p ≡ run fs (run es p)
unfolding run
run-append [] fs p = refl
run-append (e ∷ es) fs p = run-append es fs (step e p)

rank-run : (es : List Event) (p : Probed) → rank p ≤ rank (run es p)
unfolding run
rank-run [] p = omega arith
rank-run (e ∷ es) p = omega (arith, rank-step e p, rank-run es (step e p))

-- What `mark_probe_result_generation` leaves when an outcome as late has been applied.
mark_overtaken :
    (u : Publisher) (v : Version) (latency : ℕ) (err : Option ProbeError) (now : ℕ) (p : Probed)
    → 0 < v.id
    → v.id * 2 + (if is_success err then 1 else 0) ≤ rank p
    → (mark_probe_result_generation u v latency err now p).1 ≡ p
unfolding mark_probe_result_generation publish_through publish
mark_overtaken no_publisher v latency err now p h l = ground (arith, h, l)
mark_overtaken refusing v latency err now p h l = ground (arith, h, l)
mark_overtaken (publishing r) v latency err now p h l = ground (arith, h, l)

-- A mark leaves the entry as it was, or is the last outcome applied from then on.
abbrev IsRecorded : Version → Option ProbeError → Probed → Probed → Type 0
IsRecorded v err p q = (q ≡ p) ⊎ (rank q ≡ v.id * 2 + (if is_success err then 1 else 0))

note_applied-rank :
    (id : ℕ) (err : Option ProbeError) (p : Probed)
    → 0 < id
    → rank (note_applied id err p) ≡ id * 2 + (if is_success err then 1 else 0)
note_applied-rank id err p h = ground (arith, h)

publish-IsRecorded :
    (r : Option Routing) (v : Version) (latency : ℕ) (err : Option ProbeError) (now : ℕ)
    (p : Probed)
    → 0 < v.id
    → IsRecorded v err p (publish r v latency err now p).1
unfolding publish
publish-IsRecorded r v latency err now p h =
    let P : Bool × Probed → Type 0 = λ o. IsRecorded v err p o.1 in
    if_cases P (not (v.generation == p.entry.probe_generation)) (λ _. inl refl)
      (λ _.
        if_cases P (is_waiting v err) (λ _. inl refl)
          (λ _.
            if_cases P (is_repeated v err p) (λ _. inl refl)
              (λ _.
                if_cases P (not (v.started_at == 0) && has_newer_traffic v.started_at p.entry)
                  (λ _. inl refl) (λ _. inr (note_applied-rank v.id err _ h)))))

mark-IsRecorded :
    (u : Publisher) (v : Version) (latency : ℕ) (err : Option ProbeError) (now : ℕ) (p : Probed)
    → 0 < v.id
    → IsRecorded v err p (mark_probe_result_generation u v latency err now p).1
unfolding mark_probe_result_generation publish_through
mark-IsRecorded no_publisher v latency err now p h =
    if_cases (λ (o : Bool × Probed). IsRecorded v err p o.1) (is_superseded err) (λ _. inl refl)
      (λ _. publish-IsRecorded none v latency err now p h)
mark-IsRecorded refusing v latency err now p h =
    if_cases (λ (o : Bool × Probed). IsRecorded v err p o.1) (is_superseded err) (λ _. inl refl)
      (λ _. inl refl)
mark-IsRecorded (publishing r) v latency err now p h =
    if_cases (λ (o : Bool × Probed). IsRecorded v err p o.1) (is_superseded err) (λ _. inl refl)
      (λ _. publish-IsRecorded (some r) v latency err now p h)

-- The outcomes of an entry's probes are applied in the order of their calls, each at most once:
-- a mark with the result of a call changes nothing, or it is remembered, so that whatever happens
-- to the entry after, a mark with a result of an earlier call, or of the same one, changes nothing;
-- only a success may still correct a failure of the same call.
pub mark-mark_unchanged :
    (es : List Event) (u u' : Publisher) (v v' : Version) (latency latency' : ℕ)
    (err err' : Option ProbeError) (now now' : ℕ) (p : Probed)
    → 0 < v'.id
    → (v'.id < v.id) ⊎ ((v'.id ≡ v.id) × ((is_success err ≡ true) ⊎ (is_success err' ≡ false)))
    → (step (mark u v latency err now) p ≡ p)
      ⊎ (run (mark u v latency err now ∷ (es ++ (mark u' v' latency' err' now' ∷ []))) p
          ≡ run (mark u v latency err now ∷ es) p)
unfolding step run
mark-mark_unchanged es u u' v v' latency latency' err err' now now' p h late =
    let q = (mark_probe_result_generation u v latency err now p).1 in
    elim (mark-IsRecorded u v latency err now p (omega (arith, h, late))) [
      | inl same ↦ inl same
      | inr recorded ↦ inr (
          run-append es (mark u' v' latency' err' now' ∷ []) q
          ∙ mark_overtaken u' v' latency' err' now' (run es q) h
              (ground (arith, rank-run es q, recorded, late)))
    ]
