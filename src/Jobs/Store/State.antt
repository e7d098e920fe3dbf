-- ===== src/Jobs/Store/State.antt =====
-- internal/jobs: the store's state, saving it, and the accounts that a node carries.
use proxyfleet.Base.{
  ℕ, ◌+◌, ◌-◌, ◌≡◌, ◌≢◌, Bool, false, not, ◌&&◌, Option, none, some, List, [], ◌∷◌, Bytes, bytes_eq,
  ltb, if◌then◌else◌, bytes_key, ℕ_key, lookup, count_values,
}
use proxyfleet.Jobs.Store.Lease.{Lease, SelectedNode, Codec}

pub data Error : Type 0 where
  not_found unavailable conflict capacity failover_cooldown too_large write_failed : Error

pub data Result {ℓ} (A : Type ℓ) : Type ℓ where
  ok : A → Result A
  err : Error → Result A

-- `failoverReservation`.
pub record Reservation : Type 0 where
  pub expected : Lease
  pub target : SelectedNode
  pub policy : Bytes
  pub reason : Bytes
  pub from_name : Bytes
  pub committed : Bytes
  pub users : ℕ

-- `Store` without its measurements. A reservation is an object that attempts share: `failovers`
-- holds its number, `reservations` the object. `disk` is what the state file holds.
pub record Store : Type 0 where
  pub failovers : List (Bytes × ℕ)
  pub reservations : List (ℕ × Reservation)
  pub next_reservation : ℕ
  pub active : List (Bytes × ℕ)
  pub activity_dirty : Bool
  pub opened_at : ℕ
  pub persistent : Bool
  pub leases : List (Bytes × Lease)
  pub assignment_pauses : ℕ
  pub disk : List (Bytes × Lease)

abbrev pub max_leases : ℕ
max_leases = 4096

-- 4 MiB.
abbrev pub max_state_size : ℕ
max_state_size = 4194304

-- How `WriteFileAtomic` ends: with the new content in place; with an error and the old content; or
-- with the new content in place and an error, when syncing the directory fails.
pub data Write : Type 0 where
  replaced : Write
  not_replaced : Write
  unsynced : Write

abbrev file_written : Write → Store → Option Error × Store
file_written replaced s = (none, record s { disk = s.leases })
file_written not_replaced s = (some write_failed, s)
file_written unsynced s = (some write_failed, record s { disk = s.leases })

-- `saveLocked`.
unfoldable pub save : Codec → Write → Store → Option Error × Store
save c written s =
    if not s.persistent
    then (none, s)
    else if ltb max_state_size (c.encoded_size s.leases)
    then (some too_large, s)
    else file_written written s

-- What a failed operation leaves: everything in memory as it was, and the file too, unless its new
-- content came into place without being synced.
pub record Undone (written : Write) (s t : Store) : Type 0 where
  pub memory : record t { disk = s.disk } ≡ s
  pub file : written ≢ unsynced → t.disk ≡ s.disk

abbrev pub on_node : Bytes → Bytes → Lease → Bool
on_node job node l = bytes_eq l.job job && bytes_eq l.node node

abbrev pub of_job : Bytes → Lease → Bool
of_job job l = bytes_eq l.job job

-- Whether the lease of a key, if there is one, is on the node.
abbrev pub settled_on : Bytes → Option Lease → Bool
settled_on node none = false
settled_on node (some l) = bytes_eq l.node node

-- Whether a reservation takes an account of the job on the node: one whose lease is there already
-- has been counted.
abbrev pub reserves : Bytes → Bytes → Option Lease → Option Reservation → Bool
reserves job node held none = false
reserves job node held (some r) =
    bytes_eq r.expected.job job
    && bytes_eq r.target.node node
    && not (settled_on r.target.node held)

unfoldable pub reserved_accounts :
    List (ℕ × Reservation) → List (Bytes × Lease) → Bytes → Bytes → List (Bytes × ℕ) → ℕ
reserved_accounts heap leases job node [] = 0
reserved_accounts heap leases job node ((key, id) ∷ rest) =
    (if reserves job node (lookup key leases) (lookup id heap) then 1 else 0)
    + reserved_accounts heap leases job node rest

-- `accountLoadsLocked(job)[node]`.
unfoldable pub account_load : Store → Bytes → Bytes → ℕ
account_load s job node =
    count_values (on_node job node) s.leases
    + reserved_accounts s.reservations s.leases job node s.failovers

-- `AccountCounts(job)[node]`.
unfoldable pub account_count : Store → Bytes → Bytes → ℕ
account_count s job node = count_values (on_node job node) s.leases

unfoldable pub pause_new_assignments : Store → Store
pause_new_assignments s = record s { assignment_pauses = s.assignment_pauses + 1 }

-- The function that `PauseNewAssignments` returns, at its first call.
unfoldable pub resume_assignments : Store → Store
resume_assignments s = record s { assignment_pauses = s.assignment_pauses - 1 }
