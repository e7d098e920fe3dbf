-- ===== src/Jobs/Store/Activity.antt =====
-- internal/jobs/activity.go: connections that hold a lease, and the sweep of idle leases.
use proxyfleet.Base.{
  ℕ, is_nil, ◌+◌, ◌-◌, Bool, true, false, not, ◌&&◌, Option, none, some, List, [], ◌∷◌, Bytes,
  bytes_eq, ltb, leb, ◌==◌, length, if◌then◌else◌, bytes_key, lookup, insert, delete, keep_entries,
  insert_all,
}
use proxyfleet.Jobs.Store.Config.{JobConfig, reclaims}
use proxyfleet.Jobs.Store.Lease.{Lease, Codec, version, lease_key, activity_key}
use proxyfleet.Jobs.Store.State.{Error, conflict, Result, ok, err, Store, Write, save}

-- What the function that `holdLocked` returns has captured.
pub record Hold : Type 0 where
  pub key : Bytes
  pub activity : Bytes
  pub revision : Bytes

abbrev pub or_zero : Option ℕ → ℕ
or_zero none = 0
or_zero (some n) = n

abbrev pub connections : Store → Bytes → ℕ
connections s a = or_zero (lookup a s.active)

unfoldable pub hold_locked : Codec → ℕ → Bytes → Lease → Store → Hold × Store
hold_locked c now k l s =
    let a = activity_key c l in
    (
      record { key = k; activity = a; revision = version c l },
      record s {
        active = insert a (connections s a + 1) s.active;
        leases = insert k (record l { last_used_at = now }) s.leases;
        activity_dirty = true;
      },
    )

abbrev fenced : Codec → Bytes → Option Lease → Option Lease
fenced c revision none = none
fenced c revision (some l) = if bytes_eq (version c l) revision then some l else none

unfoldable pub hold : Codec → ℕ → Bytes → Bytes → Bytes → Store → Result Hold × Store
hold c now job session revision s =
    elim (fenced c revision (lookup (lease_key job session) s.leases)) [
      | none ↦ (err conflict, s)
      | some l ↦ let (h, t) = hold_locked c now (lease_key job session) l s in (ok h, t)
    ]

-- The function that `holdLocked` returns, at its first call.
unfoldable pub end_hold : Codec → ℕ → Hold → Store → Store
end_hold c now h s =
    let left = connections s h.activity - 1 in
    let fewer = record s {
      active = if left == 0 then delete h.activity s.active else insert h.activity left s.active;
    } in
    elim (fenced c h.revision (lookup h.key s.leases)) [
      | none ↦ fewer
      | some l ↦ record fewer {
        leases = insert h.key (record l { last_used_at = now }) s.leases;
        activity_dirty = true;
      }
    ]

-- A restart grants a full interval.
unfoldable pub idle_since : Store → Lease → ℕ
idle_since s l = if ltb l.last_used_at s.opened_at then s.opened_at else l.last_used_at

-- `timeouts[name]`, 0 if the job is not there: the last entry of a name counts.
unfoldable pub timeout_of : ℕ → Bytes → List JobConfig → ℕ
timeout_of so_far name [] = so_far
timeout_of so_far name (j ∷ js) =
    timeout_of (if reclaims j && bytes_eq j.name name then j.session_idle_timeout else so_far) name
      js

abbrev is_none {ℓ} : {A : Type ℓ} → Option A → Bool
is_none none = true
is_none (some _) = false

-- The test of the sweep's loop.
unfoldable pub is_idle : Codec → List JobConfig → ℕ → Store → Bytes → Lease → Bool
is_idle c configured now s k l =
    let d = timeout_of 0 l.job configured in
    ltb 0 d
    && is_none (lookup k s.failovers)
    && connections s (activity_key c l) == 0
    && leb (idle_since s l + d) now

abbrev swept : List (Bytes × Lease) → Option Error × Store → Result ℕ × Store
swept removed (none, t) = (ok (length removed), record t { activity_dirty = false })
swept removed (some e, t) = (err e, record t { leases = insert_all removed t.leases })

unfoldable pub sweep_idle : Codec → List JobConfig → ℕ → Write → Store → Result ℕ × Store
sweep_idle c configured now written s =
    let idle = is_idle c configured now s in
    let removed = keep_entries idle s.leases in
    let rest = record s { leases = keep_entries (λ k l. not (idle k l)) s.leases } in
    if ltb 0 s.assignment_pauses
    then (ok 0, s)
    else if is_nil removed && not s.activity_dirty
    then (ok 0, rest)
    else swept removed (save c written rest)

abbrev flushed : Option Error × Store → Option Error × Store
flushed (none, t) = (none, record t { activity_dirty = false })
flushed (some e, t) = (some e, t)

unfoldable pub flush_activity : Codec → Write → Store → Option Error × Store
flush_activity c written s = if not s.activity_dirty then (none, s) else flushed (save c written s)
