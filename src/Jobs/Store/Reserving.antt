-- ===== src/Jobs/Store/Reserving.antt =====
-- Reservations for failover live in memory only, and are given back once.
use proxyfleet.Base.{
  ℕ, ◌≡◌, true, false, Option, none, some, List, Bytes, bytes_key, ℕ_key, lookup,
  lookup-delete_self, ◌<◌, ap, ◌∙◌, Option-cases, inl, inr, refl, arith,
}
use proxyfleet.Jobs.Store.Config.{JobConfig}
use proxyfleet.Jobs.Store.Lease.{Lease, SelectedNode, Codec, lease_key}
use proxyfleet.Jobs.Store.State.{Error, Result, err, Reservation, Store}
use proxyfleet.Jobs.Store.Failover.{
  Attempt, begin_failover, begin_with, join_reservation, reserve, pending,
}
use proxyfleet.Jobs.Store.Commit.{abort, abort_with}

-- What reserving leaves as it was.
pub record MemoryOnly (s : Store) (o : Result Attempt × Store) : Type 0 where
  pub leases : o.1.leases ≡ s.leases
  pub disk : o.1.disk ≡ s.disk
  pub active : o.1.active ≡ s.active
  pub refused : (e : Error) → o.0 ≡ err e → o.1 ≡ s

begin_with-MemoryOnly :
    (c : Codec) (now : ℕ) (j : JobConfig) (policy : Bytes) (expected old : Lease)
    (eligible : List SelectedNode) (reason from_name : Bytes) (p : Option (ℕ × Reservation))
    (s : Store)
    → MemoryOnly s (begin_with c now j policy expected old eligible reason from_name p s)
unfolding begin_with join_reservation reserve
begin_with-MemoryOnly c now j policy expected old eligible reason from_name none s = ground arith
begin_with-MemoryOnly c now j policy expected old eligible reason from_name (some (id, r)) s =
    ground arith

-- A crash leaves the original pin: whatever `BeginFailover` answers, no lease, nothing in the state
-- file and no count of connections has changed, and if it refuses, nothing at all has.
pub begin_failover-MemoryOnly :
    (c : Codec) (now : ℕ) (j : JobConfig) (policy : Bytes) (expected : Lease)
    (eligible : List SelectedNode) (reason from_name : Bytes) (s : Store)
    → MemoryOnly s (begin_failover c now j policy expected eligible reason from_name s)
unfolding begin_failover
begin_failover-MemoryOnly c now j policy expected eligible reason from_name s =
    elim (Option-cases (lookup (lease_key j.name expected.session) s.leases)) [
      | inl nothing ↦ ground (arith, nothing)
      | inr (old, found) ↦ ground (
        arith,
        found,
        begin_with-MemoryOnly c now j policy expected old eligible reason from_name
            (pending (lease_key j.name expected.session) s) s,
      )
    ]

abort_closed : (a : Attempt) (s : Store) → a.closed ≡ true → abort a s ≡ (a, s)
unfolding abort abort_with
abort_closed a s h = elim (Option-cases (lookup a.reservation s.reservations)) [
  | inl nothing ↦ ground (arith, nothing)
  | inr (r, object) ↦ ground (arith, object)
]

abort_closes :
    (a : Attempt) (s : Store) (r : Reservation)
    → lookup a.reservation s.reservations ≡ some r
    → (abort a s).0.closed ≡ true
unfolding abort abort_with
abort_closes a s r object = ground (arith, object)

abort_nothing :
    (a : Attempt) (s : Store) → lookup a.reservation s.reservations ≡ none → abort a s ≡ (a, s)
unfolding abort
abort_nothing a s nothing = ground (arith, nothing)

-- An attempt gives its reservation back once: a second `Abort` of it changes nothing.
pub abort-abort : (a : Attempt) (s : Store) → abort (abort a s).0 (abort a s).1 ≡ abort a s
abort-abort a s = elim (Option-cases (lookup a.reservation s.reservations)) [
  | inl nothing ↦
      let same = abort_nothing a s nothing in
      ap (λ (o : Attempt × Store). abort o.0 o.1) same ∙ refl
  | inr (r, object) ↦ abort_closed (abort a s).0 (abort a s).1 (abort_closes a s r object)
]

-- The last attempt frees the account: when an open attempt aborts, the session's reservation is
-- gone if nobody else shared it and stays if somebody does, and no lease changes.
pub abort-failovers :
    (a : Attempt) (s : Store) (r : Reservation)
    → a.closed ≡ false
    → lookup a.reservation s.reservations ≡ some r
    → (r.users ≡ 1
        → lookup (lease_key r.expected.job r.expected.session) (abort a s).1.failovers ≡ none)
      × (1 < r.users → (abort a s).1.failovers ≡ s.failovers)
      × ((abort a s).1.leases ≡ s.leases)
unfolding abort abort_with
abort-failovers a s r live object = (
  λ last.
      ground (
        arith,
        object,
        lookup-delete_self (lease_key r.expected.job r.expected.session) s.failovers,
      ),
  λ shared. ground (arith, object),
  ground (arith, object),
)
