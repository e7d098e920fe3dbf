-- ===== src/Jobs/Store/Bindings.antt =====
-- internal/jobs/store.go: `Acquire`, `Migrate` and `Release`.
use proxyfleet.Base.{
  ℕ, is_nil, ◌-◌, Bool, false, not, ◌&&◌, ◌||◌, Option, none, some, List, [], ◌∷◌, Bytes, bytes_eq,
  ltb, leb, length, if◌then◌else◌, bytes_key, ℕ_key, lookup, insert, delete, count_values,
}
use proxyfleet.Jobs.Store.Config.{JobConfig}
use proxyfleet.Jobs.Store.Lease.{Lease, SelectedNode, Codec, version, lease_key, new_lease}
use proxyfleet.Jobs.Store.State.{
  Error, not_found, unavailable, conflict, capacity, Result, ok, err, Reservation, Store,
  max_leases, Write, save, of_job, account_load,
}

-- `limit > 0 && load >= limit`: a limit of 0 is none.
abbrev pub is_full : ℕ → ℕ → Bool
is_full limit load = ltb 0 limit && leb limit load

-- The body of `Acquire`'s loop; no name is no node yet.
unfoldable pub better_node : ℕ → (Bytes → ℕ) → Bytes → SelectedNode → Bytes
better_node limit load best c =
    if is_full limit (load c.node)
    then best
    else if bytes_eq best [] || ltb (load c.node) (load best)
    then c.node
    else best

unfoldable pub choose_node : ℕ → (Bytes → ℕ) → Bytes → List SelectedNode → Bytes
choose_node limit load best [] = best
choose_node limit load best (c ∷ cs) = choose_node limit load (better_node limit load best c) cs

-- What a request brings with it: the clock, `rand.Text()`, and how the writing of the file ends.
pub record Request : Type 0 where
  pub now : ℕ
  pub fresh : Bytes
  pub written : Write

-- The leases that a failed save brings back.
abbrev pub bind_saved : Lease → List (Bytes × Lease) → Option Error × Store → Result Lease × Store
bind_saved l leases (none, after) = (ok l, after)
bind_saved l leases (some e, after) = (err e, record after { leases = leases })

-- The write of `Acquire`, which a failed save takes back.
unfoldable pub bind : Codec → Write → Bytes → Lease → Store → Result Lease × Store
bind c written k l s =
    let bound = record s { leases = insert k l s.leases } in
    bind_saved l (delete k bound.leases) (save c written bound)

-- The part of `Acquire` for a session without a lease.
unfoldable pub acquire_new :
    Codec → Request → JobConfig → Bytes → Bytes → List SelectedNode → Store → Result Lease × Store
acquire_new c q j policy session ranked s =
    let node = choose_node j.max_accounts_per_node (account_load s j.name) [] ranked in
    if ltb 0 s.assignment_pauses
    then (err unavailable, s)
    else if is_nil ranked
    then (err unavailable, s)
    else if leb j.max_sessions (count_values (of_job j.name) s.leases)
        || leb max_leases (length s.leases)
    then (err conflict, s)
    else if bytes_eq node []
    then (err capacity, s)
    else bind c q.written (lease_key j.name session) (new_lease j policy session node q.now q.fresh)
        s

unfoldable pub acquire :
    Codec → Request → JobConfig → Bytes → Bytes → List SelectedNode → Store → Result Lease × Store
acquire c q j policy session ranked s = elim (lookup (lease_key j.name session) s.leases) [
  | some l ↦ (ok l, s)
  | none ↦ acquire_new c q j policy session ranked s
]

-- `Migration`.
pub record Migration : Type 0 where
  pub session : Bytes
  pub node : Bytes
  pub expected_revision : Bytes

unfoldable pub is_listed : Bytes → List SelectedNode → Bool
is_listed node [] = false
is_listed node (n ∷ ns) = bytes_eq n.node node || is_listed node ns

-- `failovers[key]`, followed to the object.
abbrev pub reservation_at : Bytes → Store → Option Reservation
reservation_at key s = elim (lookup key s.failovers) [
  | none ↦ none
  | some id ↦ lookup id s.reservations
]

abbrev pub targets : Bytes → Option Reservation → Bool
targets node none = false
targets node (some r) = bytes_eq r.target.node node

-- The accounts of the target without the one that this session has reserved there itself. A
-- reservation for the target makes the load positive.
unfoldable pub load_of_others : Bytes → JobConfig → Bytes → Store → ℕ
load_of_others key j node s =
    if targets node (reservation_at key s)
    then account_load s j.name node - 1
    else account_load s j.name node

-- The write of `Migrate`, which a failed save takes back.
unfoldable pub rebind : Codec → Write → Bytes → Lease → Lease → Store → Result Lease × Store
rebind c written k old l s =
    let bound = record s { leases = insert k l s.leases } in
    bind_saved l (insert k old bound.leases) (save c written bound)

unfoldable pub migrate_lease :
    Codec
    → Request
    → JobConfig
    → Bytes
    → Migration
    → List SelectedNode
    → Lease
    → Store
    → Result Lease × Store
migrate_lease c q j policy m eligible old s =
    let key = lease_key j.name m.session in
    let fresh = new_lease j policy m.session m.node q.now q.fresh in
    if bytes_eq m.expected_revision [] || not (bytes_eq (version c old) m.expected_revision)
    then (err conflict, s)
    else if ltb 0 s.assignment_pauses
    then (err unavailable, s)
    else if not (is_listed m.node eligible)
    then (err unavailable, s)
    else if not (bytes_eq old.node m.node)
        && is_full j.max_accounts_per_node (load_of_others key j m.node s)
    then (err capacity, s)
    else rebind c q.written key old
        (record fresh { failover_count = old.failover_count; last_failover = old.last_failover }) s

unfoldable pub migrate :
    Codec
    → Request
    → JobConfig
    → Bytes
    → Migration
    → List SelectedNode
    → Store
    → Result Lease × Store
migrate c q j policy m eligible s = elim (lookup (lease_key j.name m.session) s.leases) [
  | none ↦ (err not_found, s)
  | some old ↦ migrate_lease c q j policy m eligible old s
]

abbrev pub release_saved : List (Bytes × Lease) → Option Error × Store → Option Error × Store
release_saved leases (none, after) = (none, after)
release_saved leases (some e, after) = (some e, record after { leases = leases })

-- The write of `Release`, which a failed save takes back.
unfoldable pub release_lease : Codec → Write → Bytes → Lease → Store → Option Error × Store
release_lease c written k l s =
    let freed = record s { leases = delete k s.leases } in
    release_saved (insert k l freed.leases) (save c written freed)

unfoldable pub release : Codec → Write → Bytes → Bytes → Store → Option Error × Store
release c written job session s = elim (lookup (lease_key job session) s.leases) [
  | none ↦ (some not_found, s)
  | some l ↦ release_lease c written (lease_key job session) l s
]
