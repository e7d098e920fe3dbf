-- ===== src/Jobs/Store/Failover.antt =====
-- internal/jobs/failover.go: `BeginFailover`, reserving an alternate node for a session.
use proxyfleet.Base.{
  ℕ, ◌+◌, ◌-◌, Bool, false, not, ◌&&◌, ◌||◌, Option, none, some, List, [], ◌∷◌, Bytes, bytes_eq,
  ltb, if◌then◌else◌, bytes_key, ℕ_key, lookup, insert, codes,
}
use proxyfleet.Jobs.Store.Config.{JobConfig, automatic_failover}
use proxyfleet.Jobs.Store.Lease.{
  Lease, FailoverEvent, SelectedNode, Codec, expired, version, lease_key,
}
use proxyfleet.Jobs.Store.State.{
  not_found, unavailable, conflict, capacity, failover_cooldown, Result, ok, err, Reservation,
  Store, account_load,
}
use proxyfleet.Jobs.Store.Bindings.{is_full, is_listed}

-- 30 seconds, in nanoseconds.
abbrev pub cooldown_period : ℕ
cooldown_period = 30000000000

-- `FailoverAttempt`: the number of the reservation that it shares.
pub record Attempt : Type 0 where
  pub reservation : ℕ
  pub closed : Bool

abbrev pub known_reason : Bytes → Bool
known_reason reason =
    bytes_eq reason (codes "node_missing")
    || bytes_eq reason (codes "node_unavailable")
    || bytes_eq reason (codes "dial_failed")

-- Another dial joins a reservation that is there.
unfoldable pub join_reservation :
    Codec
    → JobConfig
    → Bytes
    → Lease
    → Lease
    → List SelectedNode
    → ℕ
    → Reservation
    → Store
    → Result Attempt × Store
join_reservation c j policy expected old eligible id r s =
    let same = bytes_eq (version c old) (version c expected) in
    if not (bytes_eq (version c r.expected) (version c expected))
      || not (bytes_eq r.policy policy)
      || not same && not (bytes_eq (version c old) r.committed)
    then (err conflict, s)
    else if not (is_listed r.target.node eligible)
    then (err unavailable, s)
    else if same
        && ltb 0 j.max_accounts_per_node
        && ltb j.max_accounts_per_node (account_load s j.name r.target.node)
    then (err capacity, s)
    else (
      ok (record { reservation = id; closed = false }),
      record s { reservations = insert id (record r { users = r.users + 1 }) s.reservations },
    )

abbrev pub no_target : SelectedNode
no_target = record { node = []; name = [] }

-- The body of the loop that picks the target: other nodes with a name and room, the least loaded.
unfoldable pub better_target : ℕ → (Bytes → ℕ) → Bytes → SelectedNode → SelectedNode → SelectedNode
better_target limit load from best n =
    if bytes_eq n.node [] || bytes_eq n.node from
    then best
    else if is_full limit (load n.node)
    then best
    else if bytes_eq best.node [] || ltb (load n.node) (load best.node)
    then n
    else best

unfoldable pub choose_target :
    ℕ → (Bytes → ℕ) → Bytes → SelectedNode → List SelectedNode → SelectedNode
choose_target limit load from best [] = best
choose_target limit load from best (n ∷ ns) =
    choose_target limit load from (better_target limit load from best n) ns

unfoldable pub has_alternative : Bytes → List SelectedNode → Bool
has_alternative from [] = false
has_alternative from (n ∷ ns) =
    not (bytes_eq n.node [] || bytes_eq n.node from) || has_alternative from ns

abbrev pub cooling : ℕ → Option FailoverEvent → Bool
cooling now none = false
cooling now (some e) = ltb (now - e.at) cooldown_period

-- A new reservation, in memory only.
unfoldable pub reserve :
    Codec
    → ℕ
    → JobConfig
    → Bytes
    → Lease
    → Lease
    → List SelectedNode
    → Bytes
    → Bytes
    → Store
    → Result Attempt × Store
reserve c now j policy expected old eligible reason from_name s =
    let load = account_load s j.name in
    let target = choose_target j.max_accounts_per_node load old.node no_target eligible in
    let id = s.next_reservation in
    if not (bytes_eq (version c old) (version c expected))
    then (err conflict, s)
    else if cooling now old.last_failover
    then (err failover_cooldown, s)
    else if bytes_eq target.node []
    then (err (if has_alternative old.node eligible then capacity else unavailable), s)
    else (
      ok (record { reservation = id; closed = false }),
      record s {
        failovers = insert (lease_key j.name expected.session) id s.failovers;
        reservations =
            insert id
              (record {
                expected = old;
                target = target;
                policy = policy;
                reason = reason;
                from_name = from_name;
                committed = [];
                users = 1;
              })
              s.reservations;
        next_reservation = id + 1;
      },
    )

unfoldable pub begin_with :
    Codec
    → ℕ
    → JobConfig
    → Bytes
    → Lease
    → Lease
    → List SelectedNode
    → Bytes
    → Bytes
    → Option (ℕ × Reservation)
    → Store
    → Result Attempt × Store
begin_with c now j policy expected old eligible reason from_name (some (id, r)) s =
    join_reservation c j policy expected old eligible id r s
begin_with c now j policy expected old eligible reason from_name none s =
    reserve c now j policy expected old eligible reason from_name s

abbrev pub with_object : ℕ → Option Reservation → Option (ℕ × Reservation)
with_object id none = none
with_object id (some r) = some (id, r)

-- `failovers[key]` with the object behind it.
abbrev pub pending : Bytes → Store → Option (ℕ × Reservation)
pending key s = elim (lookup key s.failovers) [
  | none ↦ none
  | some id ↦ with_object id (lookup id s.reservations)
]

unfoldable pub begin_failover :
    Codec
    → ℕ
    → JobConfig
    → Bytes
    → Lease
    → List SelectedNode
    → Bytes
    → Bytes
    → Store
    → Result Attempt × Store
begin_failover c now j policy expected eligible reason from_name s =
    let key = lease_key j.name expected.session in
    if not (automatic_failover j) || not (bytes_eq expected.job j.name)
    then (err conflict, s)
    else elim (lookup key s.leases) [
      | none ↦ (err not_found, s)
      | some old ↦
          if not (bytes_eq old.policy policy) || expired now old
          then (err conflict, s)
          else if ltb 0 s.assignment_pauses
          then (err unavailable, s)
          else if not (known_reason reason)
          then (err conflict, s)
          else begin_with c now j policy expected old eligible reason from_name (pending key s) s
    ]
