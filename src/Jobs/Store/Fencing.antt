-- ===== src/Jobs/Store/Fencing.antt =====
-- Bindings never move silently: repeated requests, stale revisions, and writes that fail.
use proxyfleet.Base.{
  ◌≡◌, ◌≢◌, inl, inr, none, some, List, [], Bytes, bytes_discrete, bytes_key, ℕ_key, lookup,
  lookup-insert_self, delete-insert, insert-insert_old, Option-cases, ap, sym, ◌∙◌, arith,
}
use proxyfleet.Jobs.Store.Config.{JobConfig}
use proxyfleet.Jobs.Store.Lease.{Lease, SelectedNode, Codec, version, lease_key, new_lease}
use proxyfleet.Jobs.Store.State.{Error, ok, err, conflict, Store, Write, Undone, save, account_load}
use proxyfleet.Jobs.Store.Bindings.{
  Request, Migration, choose_node, bind, acquire_new, acquire, rebind, migrate_lease, migrate,
}
use proxyfleet.Jobs.Store.Limits.{acquire-Acquired, Bound}

acquire_found :
    (c : Codec) (q : Request) (j : JobConfig) (policy session : Bytes) (ranked : List SelectedNode)
    (l : Lease) (s : Store)
    → lookup (lease_key j.name session) s.leases ≡ some l
    → acquire c q j policy session ranked s ≡ (ok l, s)
unfolding acquire
acquire_found c q j policy session ranked l s found = rw (found, acquire)

-- The revision fence of `Migrate`.
migrate_lease_fence :
    (c : Codec) (q : Request) (j : JobConfig) (policy : Bytes) (m : Migration)
    (eligible : List SelectedNode) (old : Lease) (s : Store)
    → version c old ≢ m.expected_revision
    → migrate_lease c q j policy m eligible old s ≡ (err conflict, s)
unfolding migrate_lease bytes_discrete
migrate_lease_fence c q j policy m eligible old s h = ground arith

bind_undo :
    (c : Codec) (written : Write) (k : Bytes) (l : Lease) (e : Error) (s t : Store)
    → lookup k s.leases ≡ none
    → bind c written k l s ≡ (err e, t)
    → Undone written s t
unfolding bind save
bind_undo c written k l e s t free h = ground (arith, delete-insert k l s.leases free)

rebind_undo :
    (c : Codec) (written : Write) (k : Bytes) (old l : Lease) (e : Error) (s t : Store)
    → lookup k s.leases ≡ some old
    → rebind c written k old l s ≡ (err e, t)
    → Undone written s t
unfolding rebind save
rebind_undo c written k old l e s t found h =
    ground (arith, insert-insert_old k l old s.leases found)

acquire_new_undo :
    (c : Codec) (q : Request) (j : JobConfig) (policy session : Bytes) (ranked : List SelectedNode)
    (e : Error) (s t : Store)
    → lookup (lease_key j.name session) s.leases ≡ none
    → acquire_new c q j policy session ranked s ≡ (err e, t)
    → Undone q.written s t
unfolding acquire_new
acquire_new_undo c q j policy session ranked e s t free h =
    let node = choose_node j.max_accounts_per_node (account_load s j.name) [] ranked in
    let l = new_lease j policy session node q.now q.fresh in
    ground (arith, bind_undo c q.written (lease_key j.name session) l e s t free)

migrate_lease_undo :
    (c : Codec) (q : Request) (j : JobConfig) (policy : Bytes) (m : Migration)
    (eligible : List SelectedNode) (old : Lease) (e : Error) (s t : Store)
    → lookup (lease_key j.name m.session) s.leases ≡ some old
    → migrate_lease c q j policy m eligible old s ≡ (err e, t)
    → Undone q.written s t
unfolding migrate_lease
migrate_lease_undo c q j policy m eligible old e s t found h =
    let l = new_lease j policy m.session m.node q.now q.fresh in
    let moved = record l {
      failover_count = old.failover_count;
      last_failover = old.last_failover;
    } in
    ground (arith, rebind_undo c q.written (lease_key j.name m.session) old moved e s t found)

-- A failed request changes nothing: if `Acquire` returns an error, whichever guard or write failed,
-- the store in memory is exactly what it was, and so is the file, unless its new content came into
-- place without being synced.
pub acquire_error_unchanged :
    (c : Codec) (q : Request) (j : JobConfig) (policy session : Bytes) (ranked : List SelectedNode)
    (e : Error) (s t : Store)
    → acquire c q j policy session ranked s ≡ (err e, t)
    → Undone q.written s t
unfolding acquire
acquire_error_unchanged c q j policy session ranked e s t h =
    elim (Option-cases (lookup (lease_key j.name session) s.leases)) [
      | inl free ↦ acquire_new_undo c q j policy session ranked e s t free (rw (free, acquire) at h)
      | inr (l, found) ↦ absurd (ground (arith, found))
    ]

-- Likewise for `Migrate`: after an error the old binding stands.
pub migrate_error_unchanged :
    (c : Codec) (q : Request) (j : JobConfig) (policy : Bytes) (m : Migration)
    (eligible : List SelectedNode) (e : Error) (s t : Store)
    → migrate c q j policy m eligible s ≡ (err e, t)
    → Undone q.written s t
unfolding migrate
migrate_error_unchanged c q j policy m eligible e s t h =
    elim (Option-cases (lookup (lease_key j.name m.session) s.leases)) [
      | inl free ↦ ground (arith, free)
      | inr (old, found) ↦
          migrate_lease_undo c q j policy m eligible old e s t found (rw (found, migrate) at h)
    ]

-- What a successful `Migrate` has done.
pub record Migrated (q : Request) (j : JobConfig) (policy : Bytes) (m : Migration) (old l : Lease)
    (s t : Store) : Type 0 where
  pub node : l.node ≡ m.node
  pub renewed : l.policy ≡ policy
  pub revision : l.revision ≡ q.fresh
  pub history : (l.failover_count ≡ old.failover_count) × (l.last_failover ≡ old.last_failover)
  pub bound : Bound (lease_key j.name m.session) l s t

pub migrate_lease-Migrated :
    (c : Codec) (q : Request) (j : JobConfig) (policy : Bytes) (m : Migration)
    (eligible : List SelectedNode) (old l : Lease) (s t : Store)
    → migrate_lease c q j policy m eligible old s ≡ (ok l, t)
    → Migrated q j policy m old l s t
unfolding migrate_lease new_lease rebind save
migrate_lease-Migrated c q j policy m eligible old l s t h = ground arith

migrate_lease-version :
    (c : Codec) (q : Request) (j : JobConfig) (policy : Bytes) (m : Migration)
    (eligible : List SelectedNode) (old l : Lease) (s t : Store)
    → migrate_lease c q j policy m eligible old s ≡ (ok l, t)
    → version c old ≡ m.expected_revision
unfolding migrate_lease bytes_discrete
migrate_lease-version c q j policy m eligible old l s t h = ground arith

pub migrate-Migrated :
    (c : Codec) (q : Request) (j : JobConfig) (policy : Bytes) (m : Migration)
    (eligible : List SelectedNode) (l : Lease) (s t : Store)
    → migrate c q j policy m eligible s ≡ (ok l, t)
    → (old : Lease) × (lookup (lease_key j.name m.session) s.leases ≡ some old)
      × (version c old ≡ m.expected_revision)
      × Migrated q j policy m old l s t
unfolding migrate
migrate-Migrated c q j policy m eligible l s t h =
    elim (Option-cases (lookup (lease_key j.name m.session) s.leases)) [
      | inl free ↦ absurd (ground (arith, free))
      | inr (old, found) ↦
          let moved = rw (found, migrate) at h in
          (
            old,
            found,
            migrate_lease-version c q j policy m eligible old l s t moved,
            migrate_lease-Migrated c q j policy m eligible old l s t moved,
          )
    ]

version_revision : (c : Codec) (l : Lease) → l.revision ≢ [] → version c l ≡ l.revision
unfolding version bytes_discrete
version_revision c l h = ground arith

-- Two migrations with one expected revision do not both win: once one has succeeded, with a fresh
-- revision that is not empty and not the expected one, any other request for the session that
-- expects the same revision is refused as a conflict and changes nothing, whatever node, policy and
-- moment it names.
pub migrate-migrate :
    (c : Codec) (q q' : Request) (j : JobConfig) (policy policy' : Bytes) (m m' : Migration)
    (eligible eligible' : List SelectedNode) (l : Lease) (s t : Store)
    → m'.session ≡ m.session
    → m'.expected_revision ≡ m.expected_revision
    → q.fresh ≢ []
    → q.fresh ≢ m.expected_revision
    → migrate c q j policy m eligible s ≡ (ok l, t)
    → migrate c q' j policy' m' eligible' t ≡ (err conflict, t)
unfolding migrate
migrate-migrate c q q' j policy policy' m m' eligible eligible' l s t same expects named fresh h =
    let (old, found, _, won) = migrate-Migrated c q j policy m eligible l s t h in
    let stored : lookup (lease_key j.name m'.session) t.leases ≡ some l =
      ap (λ x. lookup (lease_key j.name x) t.leases) same
      ∙ ap (lookup (lease_key j.name m.session)) won.bound.leases
      ∙ lookup-insert_self _ l s.leases in
    rw (stored, migrate)
      (migrate_lease_fence c q' j policy' m' eligible' l t (λ e. fresh (
        sym won.revision
        ∙ sym (version_revision c l (λ z. named (sym won.revision ∙ z)))
        ∙ e
        ∙ expects)))

acquire_stored :
    (c : Codec) (q : Request) (j : JobConfig) (policy session : Bytes) (ranked : List SelectedNode)
    (l : Lease) (s t : Store)
    → acquire c q j policy session ranked s ≡ (ok l, t)
    → lookup (lease_key j.name session) t.leases ≡ some l
unfolding acquire
acquire_stored c q j policy session ranked l s t h =
    elim (Option-cases (lookup (lease_key j.name session) s.leases)) [
      | inl free ↦
          ap (lookup (lease_key j.name session))
            (acquire-Acquired c q j policy session ranked l s t free h).bound.leases
          ∙ lookup-insert_self (lease_key j.name session) l s.leases
      | inr (old, found) ↦ ground (arith, found)
    ]

-- A session keeps its binding: once `Acquire` has answered with a lease, every later `Acquire` for
-- the session, at whatever time, with whatever policy, ranking, limits or pause, answers with that
-- lease and changes nothing.
pub acquire-acquire :
    (c : Codec) (q q' : Request) (j j' : JobConfig) (policy policy' session : Bytes)
    (ranked ranked' : List SelectedNode) (l : Lease) (s t : Store)
    → j'.name ≡ j.name
    → acquire c q j policy session ranked s ≡ (ok l, t)
    → acquire c q' j' policy' session ranked' t ≡ (ok l, t)
acquire-acquire c q q' j j' policy policy' session ranked ranked' l s t name h =
    acquire_found c q' j' policy' session ranked' l t (
      ap (λ x. lookup (lease_key x session) t.leases) name
      ∙ acquire_stored c q j policy session ranked l s t h)
