-- ===== src/Jobs/Store/Commit.antt =====
-- internal/jobs/failover.go: `Commit`, moving the session to its reserved node once a connection
-- stands, and `Abort`.
use proxyfleet.Base.{
  List, ℕ, ◌+◌, ◌-◌, Bool, true, false, not, ◌&&◌, ◌||◌, Option, none, some, [], Bytes, bytes_eq,
  ltb, ◌==◌, if◌then◌else◌, bytes_key, ℕ_key, lookup, insert, delete,
}
use proxyfleet.Jobs.Store.Lease.{Lease, Codec, expired, version, lease_key}
use proxyfleet.Jobs.Store.State.{
  Error, not_found, unavailable, conflict, Result, ok, err, Reservation, Store, save,
}
use proxyfleet.Jobs.Store.Bindings.{Request}
use proxyfleet.Jobs.Store.Activity.{Hold, hold_locked}
use proxyfleet.Jobs.Store.Failover.{Attempt}

-- The lease after the move; its two readings of the clock are one.
unfoldable pub moved_lease : Request → Reservation → Lease → Lease
moved_lease q r old = record old {
  node = r.target.node;
  revision = q.fresh;
  failover_count = old.failover_count + 1;
  last_failover = some (record {
    at = q.now;
    from_node = old.node;
    to_node = r.target.node;
    from_name = r.from_name;
    to_name = r.target.name;
    reason = r.reason;
  });
}

abbrev pub held : Lease → Hold × Store → Result (Lease × Hold) × Store
held l (h, t) = (ok (l, h), t)

abbrev pub commit_saved :
    Codec
    → ℕ
    → Bytes
    → ℕ
    → Reservation
    → Lease
    → List (Bytes × Lease)
    → Option Error × Store
    → Result (Lease × Hold) × Store
commit_saved c now key id r l leases (some e, t) = (err e, record t { leases = leases })
commit_saved c now key id r l leases (none, t) = held l (
    hold_locked c now key l
      (record t { reservations = insert id (record r { committed = version c l }) t.reservations }))

unfoldable pub commit_move :
    Codec → Request → Bytes → ℕ → Reservation → Lease → Store → Result (Lease × Hold) × Store
commit_move c q key id r old s =
    let l = moved_lease q r old in
    let written = record s { leases = insert key l s.leases } in
    commit_saved c q.now key id r l (insert key old written.leases) (save c q.written written)

-- Whether the reservation has moved the session to the lease that is there.
abbrev pub is_committed : Codec → Reservation → Lease → Bool
is_committed c r old = not (bytes_eq r.committed []) && bytes_eq (version c old) r.committed

unfoldable pub commit_lease :
    Codec → Request → Bytes → ℕ → Reservation → Lease → Store → Result (Lease × Hold) × Store
commit_lease c q key id r old s =
    if ltb 0 s.assignment_pauses
    then (err unavailable, s)
    else if not (bytes_eq old.policy r.policy) || expired q.now old
    then (err conflict, s)
    else if is_committed c r old
    then held old (hold_locked c q.now key old s)
    else if not (bytes_eq (version c old) (version c r.expected))
    then (err conflict, s)
    else commit_move c q key id r old s

abbrev pub is_current : ℕ → Option ℕ → Bool
is_current id none = false
is_current id (some i) = i == id

-- `Commit` on an attempt whose reservation is `r`.
unfoldable pub commit_with :
    Codec → Request → Attempt → Reservation → Store → Result (Lease × Hold) × Store
commit_with c q a r s =
    let key = lease_key r.expected.job r.expected.session in
    if a.closed || not (is_current a.reservation (lookup key s.failovers))
    then (err conflict, s)
    else elim (lookup key s.leases) [
      | none ↦ (err not_found, s)
      | some old ↦ commit_lease c q key a.reservation r old s
    ]

-- `Commit`. An attempt whose object is not in the heap does not arise.
unfoldable pub commit : Codec → Request → Attempt → Store → Result (Lease × Hold) × Store
commit c q a s = elim (lookup a.reservation s.reservations) [
  | none ↦ (err conflict, s)
  | some r ↦ commit_with c q a r s
]

-- `Abort` on an attempt whose reservation is `r`: the last one frees the account.
unfoldable pub abort_with : Attempt → Reservation → Store → Attempt × Store
abort_with a r s =
    let left = record s {
      reservations = insert a.reservation (record r { users = r.users - 1 }) s.reservations;
    } in
    let freed = record left {
      failovers = delete (lease_key r.expected.job r.expected.session) left.failovers;
    } in
    if a.closed
    then (a, s)
    else (record a { closed = true }, if r.users - 1 == 0 then freed else left)

-- `Abort`.
unfoldable pub abort : Attempt → Store → Attempt × Store
abort a s = elim (lookup a.reservation s.reservations) [ none ↦ (a, s) | some r ↦ abort_with a r s ]
