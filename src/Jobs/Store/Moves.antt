-- ===== src/Jobs/Store/Moves.antt =====
-- Moving and ending a binding: the limit of the target, and what a release leaves.
use proxyfleet.Base.{
  ℕ, ◌+◌, ◌≤◌, ◌<◌, ◌≡◌, ◌≢◌, inl, inr, true, false, none, some, Option, List, Bytes,
  bytes_discrete, bytes_key, ℕ_key, lookup, delete, count_values-insert_old, lookup-insert,
  lookup-delete, lookup-insert_self, lookup-delete_self, Option-cases, Bool-cases, refl, arith,
}
use proxyfleet.Jobs.Store.Config.{JobConfig}
use proxyfleet.Jobs.Store.Lease.{Lease, SelectedNode, Codec, lease_key, new_lease}
use proxyfleet.Jobs.Store.State.{
  Error, ok, Reservation, Store, Write, unsynced, save, on_node, account_load,
}
use proxyfleet.Jobs.Store.Bindings.{
  Request, Migration, is_full, reservation_at, targets, load_of_others, rebind, migrate_lease,
  migrate, is_listed, release, release_lease,
}
use proxyfleet.Jobs.Store.Accounts.{reserved_accounts-rebind_le, reserved_accounts-rebind_lt}
use proxyfleet.Jobs.Store.Limits.{Bound}
use proxyfleet.Jobs.Store.Fencing.{migrate_lease-Migrated}

-- The reservation of a session, if there is one, is for its own job.
abbrev pub OwnReservation : Bytes → JobConfig → Store → Type 0
OwnReservation key j s = (r : Reservation) → reservation_at key s ≡ some r → r.expected.job ≡ j.name

migrate_lease_room :
    (c : Codec) (q : Request) (j : JobConfig) (policy : Bytes) (m : Migration)
    (eligible : List SelectedNode) (old l : Lease) (s t : Store)
    → old.node ≢ m.node
    → migrate_lease c q j policy m eligible old s ≡ (ok l, t)
    → (is_full j.max_accounts_per_node (load_of_others (lease_key j.name m.session) j m.node s)
        ≡ false)
      × (l.job ≡ j.name)
      × (is_listed m.node eligible ≡ true)
unfolding migrate_lease bytes_discrete rebind save new_lease
migrate_lease_room c q j policy m eligible old l s t other h =
    (ground arith, ground arith, ground arith)

reservation_parts :
    (key t : Bytes) (s : Store)
    → targets t (reservation_at key s) ≡ true
    → (id : ℕ) × (r : Reservation) × (lookup key s.failovers ≡ some id)
      × (lookup id s.reservations ≡ some r)
      × (r.target.node ≡ t)
unfolding bytes_discrete
reservation_parts key t s h = elim (Option-cases (lookup key s.failovers)) [
  | inl nothing ↦ absurd (ground (arith, nothing))
  | inr (id, at) ↦ elim (Option-cases (lookup id s.reservations)) [
    | inl nothing ↦ absurd (ground (arith, at, nothing))
    | inr (r, object) ↦ (id, r, at, object, ground (arith, at, object))
  ]
]

reservation_found :
    (key : Bytes) (s : Store) (id : ℕ) (r : Reservation)
    → lookup key s.failovers ≡ some id
    → lookup id s.reservations ≡ some r
    → reservation_at key s ≡ some r
reservation_found key s id r at object = ground arith

-- The accounts of a session's new node after the move, at most one more than those of the others.
account_load-rebind :
    (j : JobConfig) (key t : Bytes) (old l : Lease) (s s' : Store)
    → lookup key s.leases ≡ some old
    → old.node ≢ t
    → l.node ≡ t
    → OwnReservation key j s
    → Bound key l s s'
    → account_load s' j.name t ≤ load_of_others key j t s + 1
unfolding account_load load_of_others
account_load-rebind j key t old l s s' found other node own b =
    elim (Bool-cases (targets t (reservation_at key s))) [
      | inl yes_target ↦
          let (id, r, at, object, target) = reservation_parts key t s yes_target in
          rw (b.leases, b.failovers, b.reservations, yes_target)
            (ground (
              arith,
              count_values-insert_old (on_node j.name t) key l old s.leases found,
              reserved_accounts-rebind_lt s.reservations s.leases j.name t key old l id r
                  s.failovers found other node at object
                  (own r (reservation_found key s id r at object)) target,
            ))
      | inr no_target ↦
          rw (b.leases, b.failovers, b.reservations, no_target)
            (ground (
              arith,
              count_values-insert_old (on_node j.name t) key l old s.leases found,
              reserved_accounts-rebind_le s.reservations s.leases j.name t key old l s.failovers
                  found node,
            ))
    ]

-- Moving a session keeps the limit of its new node: if `Migrate` moves a session from another node
-- to one with an account limit, and the session's own reservation, if it has one, is for its job,
-- then afterwards the new node carries at most its limit, reservations included, and it is one of
-- the eligible nodes.
pub migrate-limit :
    (c : Codec) (q : Request) (j : JobConfig) (policy : Bytes) (m : Migration)
    (eligible : List SelectedNode) (old l : Lease) (s t : Store)
    → lookup (lease_key j.name m.session) s.leases ≡ some old
    → old.node ≢ m.node
    → OwnReservation (lease_key j.name m.session) j s
    → 0 < j.max_accounts_per_node
    → migrate c q j policy m eligible s ≡ (ok l, t)
    → (account_load t j.name m.node ≤ j.max_accounts_per_node) × (is_listed m.node eligible ≡ true)
unfolding migrate
migrate-limit c q j policy m eligible old l s t found other own limited h =
    let moved = rw (found, migrate) at h in
    let won = migrate_lease-Migrated c q j policy m eligible old l s t moved in
    let (room, _, listed) = migrate_lease_room c q j policy m eligible old l s t other moved in
    let load =
      account_load-rebind j (lease_key j.name m.session) m.node old l s t found other won.node own
        won.bound in
    (ground (arith, room, load), listed)

-- What `Release` does to the lookups.
pub record Released (written : Write) (key : Bytes) (e : Option Error) (s t : Store) : Type 0 where
  pub gone : e ≡ none → lookup key t.leases ≡ none
  pub others : (k : Bytes) → key ≢ k → lookup k t.leases ≡ lookup k s.leases
  pub kept : e ≢ none → lookup key t.leases ≡ lookup key s.leases
  pub saved : e ≡ none → s.persistent ≡ true → t.disk ≡ t.leases
  pub unsaved : e ≢ none → written ≢ unsynced → t.disk ≡ s.disk

release_lease_others :
    (c : Codec) (written : Write) (key k : Bytes) (l : Lease) (s : Store)
    → key ≢ k
    → lookup k (release_lease c written key l s).1.leases ≡ lookup k s.leases
unfolding release_lease save bytes_discrete
release_lease_others c written key k l s other =
    ground (arith, lookup-delete key k s.leases, lookup-insert key k l (delete key s.leases))

release_lease-Released :
    (c : Codec) (written : Write) (key : Bytes) (l : Lease) (s : Store)
    → lookup key s.leases ≡ some l
    → Released written key (release_lease c written key l s).0 s (release_lease c written key l s).1
unfolding release_lease save
release_lease-Released c written key l s found = record {
  gone = ground (arith, lookup-delete_self key s.leases);
  others = λ k other. release_lease_others c written key k l s other;
  kept = ground (arith, lookup-insert_self key l (delete key s.leases));
  saved = ground arith;
  unsaved = ground arith;
}

-- A release ends exactly one session, or nothing changes: after `Release`, every other session has
-- the lease that it had; if it succeeds, the session has no lease and a file that is in use holds
-- exactly the leases in memory; if it fails, the session has the lease that it had and the file is
-- unchanged, unless its new content came into place without being synced.
pub release-Released :
    (c : Codec) (written : Write) (job session : Bytes) (s : Store)
    → Released written
        (lease_key job session)
        (release c written job session s).0
        s
        (release c written job session s).1
unfolding release
release-Released c written job session s =
    elim (Option-cases (lookup (lease_key job session) s.leases)) [
      | inl nothing ↦
          rw (nothing, release)
            (record {
              gone = λ e. absurd (ground (arith, e));
              others = λ k other. refl;
              kept = λ e. refl;
              saved = λ e. absurd (ground (arith, e));
              unsaved = λ e w. refl;
            })
      | inr (l, found) ↦ rw (found, release) (release_lease-Released c written _ l s found)
    ]
