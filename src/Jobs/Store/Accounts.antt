-- ===== src/Jobs/Store/Accounts.antt =====
-- How the accounts on a node change when a lease is written.
use proxyfleet.Base.{
  ℕ, ◌+◌, ◌≤◌, ◌≡◌, ◌≢◌, none, some, List, [], ◌∷◌, Bytes, bytes_discrete, bytes_key, ℕ_key, lookup,
  insert, lookup-insert, lookup-cons, arith,
}
use proxyfleet.Jobs.Store.Lease.{Lease}
use proxyfleet.Jobs.Store.State.{Reservation, reserved_accounts}

-- A first lease for a key takes over what was reserved for it.
pub reserved_accounts-insert_le :
    (heap : List (ℕ × Reservation)) (leases : List (Bytes × Lease)) (job node k : Bytes) (l : Lease)
    (fs : List (Bytes × ℕ))
    → lookup k leases ≡ none
    → reserved_accounts heap (insert k l leases) job node fs
      ≤ reserved_accounts heap leases job node fs
unfolding reserved_accounts bytes_discrete
reserved_accounts-insert_le heap leases job node k l [] h = omega arith
reserved_accounts-insert_le heap leases job node k l ((key, id) ∷ fs) h =
    ground
      (arith, lookup-insert k key l leases, reserved_accounts-insert_le heap leases job node k l fs)

-- Writing a lease on the node `t` over one elsewhere adds nothing to what is reserved on `t`.
pub reserved_accounts-rebind_le :
    (heap : List (ℕ × Reservation)) (leases : List (Bytes × Lease)) (job t k : Bytes)
    (old l : Lease) (fs : List (Bytes × ℕ))
    → lookup k leases ≡ some old
    → l.node ≡ t
    → reserved_accounts heap (insert k l leases) job t fs ≤ reserved_accounts heap leases job t fs
unfolding reserved_accounts bytes_discrete
reserved_accounts-rebind_le heap leases job t k old l [] h e = omega arith
reserved_accounts-rebind_le heap leases job t k old l ((key, id) ∷ fs) h e = ground (
  arith,
  lookup-insert k key l leases,
  reserved_accounts-rebind_le heap leases job t k old l fs h e,
)

nothing_found : (k : Bytes) {id : ℕ} → lookup k [] ≡ some id → ⊥
unfolding lookup
nothing_found k h = cc

-- What the key itself had reserved on `t` is no longer counted apart.
pub reserved_accounts-rebind_lt :
    (heap : List (ℕ × Reservation)) (leases : List (Bytes × Lease)) (job t k : Bytes)
    (old l : Lease) (id : ℕ) (r : Reservation) (fs : List (Bytes × ℕ))
    → lookup k leases ≡ some old
    → old.node ≢ t
    → l.node ≡ t
    → lookup k fs ≡ some id
    → lookup id heap ≡ some r
    → r.expected.job ≡ job
    → r.target.node ≡ t
    → reserved_accounts heap (insert k l leases) job t fs + 1
      ≤ reserved_accounts heap leases job t fs
unfolding reserved_accounts bytes_discrete
reserved_accounts-rebind_lt heap leases job t k old l id r [] h n e found at j target =
    absurd (nothing_found k found)
reserved_accounts-rebind_lt heap leases job t k old l id r ((key, i) ∷ fs) h n e found at j target =
    ground (
      arith,
      lookup-cons k key i fs,
      lookup-insert k key l leases,
      reserved_accounts-rebind_le heap leases job t k old l fs h e,
      reserved_accounts-rebind_lt heap leases job t k old l id r fs h n e,
    )
