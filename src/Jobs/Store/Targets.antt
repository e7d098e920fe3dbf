-- ===== src/Jobs/Store/Targets.antt =====
-- The node that a failover reserves.
use proxyfleet.Base.{
  ℕ, ◌≡◌, ◌≢◌, ◌⊎◌, inl, inr, false, some, none, List, [], ◌∷◌, Bytes, bytes_discrete, bytes_key,
  ℕ_key, lookup, insert, Option-cases, lookup-insert_self, refl, ap, ◌∙◌, arith,
}
use proxyfleet.Jobs.Store.Config.{JobConfig}
use proxyfleet.Jobs.Store.Lease.{Lease, SelectedNode, Codec, lease_key, version}
use proxyfleet.Jobs.Store.State.{ok, Reservation, Store, account_load}
use proxyfleet.Jobs.Store.Bindings.{is_full}
use proxyfleet.Jobs.Store.Failover.{
  Attempt, better_target, choose_target, no_target, reserve, begin_with, begin_failover, pending,
}

-- No target yet, or another node than `from` with room.
abbrev IsTarget : ℕ → (Bytes → ℕ) → Bytes → SelectedNode → Type 0
IsTarget limit load from n =
    (n.node ≡ []) ⊎ ((is_full limit (load n.node) ≡ false) × (n.node ≢ from))

better_target-IsTarget :
    (limit : ℕ) (load : Bytes → ℕ) (from : Bytes) (best n : SelectedNode)
    → IsTarget limit load from best
    → IsTarget limit load from (better_target limit load from best n)
unfolding better_target bytes_discrete
better_target-IsTarget limit load from best n h = ground (arith, h)

choose_target-IsTarget :
    (limit : ℕ) (load : Bytes → ℕ) (from : Bytes) (best : SelectedNode) (ns : List SelectedNode)
    → IsTarget limit load from best
    → IsTarget limit load from (choose_target limit load from best ns)
unfolding choose_target
choose_target-IsTarget limit load from best [] h = h
choose_target-IsTarget limit load from best (n ∷ ns) h =
    choose_target-IsTarget limit load from (better_target limit load from best n) ns
      (better_target-IsTarget limit load from best n h)

-- A new reservation for the session.
record Placed (j : JobConfig) (expected : Lease) (a : Attempt) (r : Reservation) (s t : Store)
    : Type 0 where
  reservations : t.reservations ≡ insert a.reservation r s.reservations
  failovers : t.failovers ≡ insert (lease_key j.name expected.session) a.reservation s.failovers

-- What the object of a new reservation says: one user, the lease that was found as it was found, and
-- a target with room, other than its node.
pub record Sound (c : Codec) (j : JobConfig) (expected old : Lease) (s : Store) (r : Reservation)
    : Type 0 where
  pub room : is_full j.max_accounts_per_node (account_load s j.name r.target.node) ≡ false
  pub elsewhere : r.target.node ≢ old.node
  pub named : r.target.node ≢ []
  pub pinned : r.expected ≡ old
  pub fresh : version c old ≡ version c expected
  pub uncommitted : r.committed ≡ []
  pub alone : r.users ≡ 1

reserve-Placed :
    (c : Codec) (now : ℕ) (j : JobConfig) (policy : Bytes) (expected old : Lease)
    (eligible : List SelectedNode) (reason from_name : Bytes) (a : Attempt) (s t : Store)
    → IsTarget j.max_accounts_per_node
        (account_load s j.name)
        old.node
        (choose_target j.max_accounts_per_node (account_load s j.name) old.node no_target eligible)
    → reserve c now j policy expected old eligible reason from_name s ≡ (ok a, t)
    → (r : Reservation) × Placed j expected a r s t × Sound c j expected old s r
unfolding reserve bytes_discrete
reserve-Placed c now j policy expected old eligible reason from_name a s t target h = (
  record {
    expected = old;
    target =
        choose_target j.max_accounts_per_node (account_load s j.name) old.node no_target eligible;
    policy = policy;
    reason = reason;
    from_name = from_name;
    committed = [];
    users = 1;
  },
  ground arith,
  ground arith,
)

reserve-Sound :
    (c : Codec) (now : ℕ) (j : JobConfig) (policy : Bytes) (expected old : Lease)
    (eligible : List SelectedNode) (reason from_name : Bytes) (a : Attempt) (s t : Store)
    → reserve c now j policy expected old eligible reason from_name s ≡ (ok a, t)
    → (r : Reservation) × (lookup a.reservation t.reservations ≡ some r)
      × (lookup (lease_key j.name expected.session) t.failovers ≡ some a.reservation)
      × Sound c j expected old s r
reserve-Sound c now j policy expected old eligible reason from_name a s t h =
    let target =
      choose_target-IsTarget j.max_accounts_per_node (account_load s j.name) old.node no_target
        eligible (inl refl) in
    let (r, placed, sound) =
      reserve-Placed c now j policy expected old eligible reason from_name a s t target h in
    (
      r,
      ap (lookup a.reservation) placed.reservations
          ∙ lookup-insert_self a.reservation r s.reservations,
      ap (lookup (lease_key j.name expected.session)) placed.failovers
          ∙ lookup-insert_self (lease_key j.name expected.session) a.reservation s.failovers,
      sound,
    )

begin_failover-reserve :
    (c : Codec) (now : ℕ) (j : JobConfig) (policy : Bytes) (expected : Lease)
    (eligible : List SelectedNode) (reason from_name : Bytes) (a : Attempt) (s t : Store)
    → pending (lease_key j.name expected.session) s ≡ none
    → begin_failover c now j policy expected eligible reason from_name s ≡ (ok a, t)
    → (old : Lease) × (lookup (lease_key j.name expected.session) s.leases ≡ some old)
      × (reserve c now j policy expected old eligible reason from_name s ≡ (ok a, t))
unfolding begin_failover begin_with
begin_failover-reserve c now j policy expected eligible reason from_name a s t nobody h =
    elim (Option-cases (lookup (lease_key j.name expected.session) s.leases)) [
      | inl nothing ↦ absurd (ground (arith, nothing))
      | inr (old, found) ↦ (old, found, ground (arith, found, nobody))
    ]

-- A failover goes elsewhere and within the limit: if `BeginFailover` succeeds for a session without
-- a reservation, the session then has the attempt's own reservation, for a named node that is not
-- the one of its lease and that had room for one more account, reservations counted; it holds the
-- lease as it was found, of the version that the caller expects.
pub begin_failover-Sound :
    (c : Codec) (now : ℕ) (j : JobConfig) (policy : Bytes) (expected : Lease)
    (eligible : List SelectedNode) (reason from_name : Bytes) (a : Attempt) (s t : Store)
    → pending (lease_key j.name expected.session) s ≡ none
    → begin_failover c now j policy expected eligible reason from_name s ≡ (ok a, t)
    → (old : Lease) × (r : Reservation) × (lookup (lease_key j.name expected.session) s.leases
        ≡ some old)
      × (lookup a.reservation t.reservations ≡ some r)
      × (lookup (lease_key j.name expected.session) t.failovers ≡ some a.reservation)
      × Sound c j expected old s r
begin_failover-Sound c now j policy expected eligible reason from_name a s t nobody h =
    let (old, found, reserved) =
      begin_failover-reserve c now j policy expected eligible reason from_name a s t nobody h in
    let (r, stored, current, sound) =
      reserve-Sound c now j policy expected old eligible reason from_name a s t reserved in
    (old, r, found, stored, current, sound)
