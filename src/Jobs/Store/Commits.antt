-- ===== src/Jobs/Store/Commits.antt =====
-- Committing a failover: what moves, what a failure leaves, and that one move serves every dial.
use proxyfleet.Base.{
  ℕ, ◌+◌, ◌≡◌, ◌⊎◌, inl, inr, true, false, some, Bytes, bytes_discrete, bytes_key, ℕ_key, lookup,
  insert, insert-insert_old, Option-cases, Bool-cases, arith,
}
use proxyfleet.Jobs.Store.Lease.{Lease, Codec, version, lease_key}
use proxyfleet.Jobs.Store.State.{Error, ok, err, Reservation, Store, Undone, save}
use proxyfleet.Jobs.Store.Bindings.{Request}
use proxyfleet.Jobs.Store.Activity.{Hold, hold_locked}
use proxyfleet.Jobs.Store.Failover.{Attempt}
use proxyfleet.Jobs.Store.Commit.{
  commit, commit_with, commit_lease, commit_move, moved_lease, is_committed,
}

commit_move_undo :
    (c : Codec) (q : Request) (key : Bytes) (id : ℕ) (r : Reservation) (old : Lease) (e : Error)
    (s t : Store)
    → lookup key s.leases ≡ some old
    → commit_move c q key id r old s ≡ (err e, t)
    → Undone q.written s t
unfolding commit_move save
commit_move_undo c q key id r old e s t found h =
    ground (arith, insert-insert_old key (moved_lease q r old) old s.leases found)

commit_lease_undo :
    (c : Codec) (q : Request) (key : Bytes) (id : ℕ) (r : Reservation) (old : Lease) (e : Error)
    (s t : Store)
    → lookup key s.leases ≡ some old
    → commit_lease c q key id r old s ≡ (err e, t)
    → Undone q.written s t
unfolding commit_lease
commit_lease_undo c q key id r old e s t found h =
    ground (arith, commit_move_undo c q key id r old e s t found)

commit_with_undo :
    (c : Codec) (q : Request) (a : Attempt) (r : Reservation) (e : Error) (s t : Store)
    → commit_with c q a r s ≡ (err e, t)
    → Undone q.written s t
unfolding commit_with
commit_with_undo c q a r e s t h =
    elim (Option-cases (lookup (lease_key r.expected.job r.expected.session) s.leases)) [
      | inl free ↦ ground (arith, free)
      | inr (old, found) ↦ ground (
        arith,
        found,
        commit_lease_undo c q (lease_key r.expected.job r.expected.session) a.reservation r old e s
            t found,
      )
    ]

-- A failed commit leaves identity, history and cooldown as they are: whichever guard or write
-- fails, the store in memory is exactly what it was, and so is the file, unless its new content
-- came into place without being synced.
pub commit_error_unchanged :
    (c : Codec) (q : Request) (a : Attempt) (e : Error) (s t : Store)
    → commit c q a s ≡ (err e, t)
    → Undone q.written s t
unfolding commit
commit_error_unchanged c q a e s t h = elim (Option-cases (lookup a.reservation s.reservations)) [
  | inl nothing ↦ ground (arith, nothing)
  | inr (r, object) ↦ commit_with_undo c q a r e s t (rw (object, commit) at h)
]

-- What a commit that moves the session does.
pub record Moved (c : Codec) (q : Request) (key : Bytes) (id : ℕ) (r : Reservation) (old l : Lease)
    (s t : Store) : Type 0 where
  pub expected : version c old ≡ version c r.expected
  pub node : l.node ≡ r.target.node
  pub revision : l.revision ≡ q.fresh
  pub count : l.failover_count ≡ old.failover_count + 1
  pub lifetime :
      (l.policy ≡ old.policy) × (l.permanent ≡ old.permanent) × (l.expires_at ≡ old.expires_at)
  pub stored : t.leases ≡ insert key (record l { last_used_at = q.now }) (insert key l s.leases)
  pub written : s.persistent ≡ true → t.disk ≡ insert key l s.leases
  pub marked : t.reservations ≡ insert id (record r { committed = version c l }) s.reservations
  pub failovers : t.failovers ≡ s.failovers
  pub pauses : t.assignment_pauses ≡ 0
  pub settings : t.persistent ≡ s.persistent

-- What a commit that finds the session moved already does.
pub record Adopted (c : Codec) (q : Request) (key : Bytes) (r : Reservation) (old l : Lease)
    (s t : Store) : Type 0 where
  pub same : l ≡ old
  pub committed : version c old ≡ r.committed
  pub stored : t.leases ≡ insert key (record l { last_used_at = q.now }) s.leases
  pub unwritten : t.disk ≡ s.disk

commit_lease-Adopted :
    (c : Codec) (q : Request) (key : Bytes) (id : ℕ) (r : Reservation) (old l : Lease) (h : Hold)
    (s t : Store)
    → is_committed c r old ≡ true
    → commit_lease c q key id r old s ≡ (ok (l, h), t)
    → Adopted c q key r old l s t
unfolding commit_lease hold_locked bytes_discrete
commit_lease-Adopted c q key id r old l h s t done e = ground arith

commit_lease-Moved :
    (c : Codec) (q : Request) (key : Bytes) (id : ℕ) (r : Reservation) (old l : Lease) (h : Hold)
    (s t : Store)
    → is_committed c r old ≡ false
    → commit_lease c q key id r old s ≡ (ok (l, h), t)
    → Moved c q key id r old l s t
unfolding commit_lease commit_move moved_lease hold_locked save bytes_discrete
commit_lease-Moved c q key id r old l h s t open_yet e = ground arith

-- The reservation and the lease that a successful commit found.
pub record Found (a : Attempt) (r : Reservation) (old : Lease) (s : Store) : Type 0 where
  pub object : lookup a.reservation s.reservations ≡ some r
  pub current :
      lookup (lease_key r.expected.job r.expected.session) s.failovers ≡ some a.reservation
  pub lease : lookup (lease_key r.expected.job r.expected.session) s.leases ≡ some old
  pub not_closed : a.closed ≡ false

commit-Found :
    (c : Codec) (q : Request) (a : Attempt) (l : Lease) (h : Hold) (s t : Store)
    → commit c q a s ≡ (ok (l, h), t)
    → (r : Reservation) × (old : Lease) × Found a r old s
      × (commit_lease c q (lease_key r.expected.job r.expected.session) a.reservation r old s
          ≡ (ok (l, h), t))
unfolding commit commit_with
commit-Found c q a l h s t e = elim (Option-cases (lookup a.reservation s.reservations)) [
  | inl nothing ↦ absurd (ground (arith, nothing))
  | inr (r, object) ↦
      elim (Option-cases (lookup (lease_key r.expected.job r.expected.session) s.leases)) [
        | inl nothing ↦ absurd (ground (arith, nothing, object))
        | inr (old, lease) ↦ (r, old, ground (arith, object, lease), ground (arith, object, lease))
      ]
]

-- A commit moves the session once: a successful commit of an attempt that shares a current
-- reservation either finds the revision that the reservation was made for, and then moves the lease
-- to the reserved node under the fresh revision, counts one failover, keeps policy and lifetime, and
-- writes it out before anyone uses it; or it finds the session already moved by the same
-- reservation, and then returns that lease, with nothing written.
pub commit_outcome :
    (c : Codec) (q : Request) (a : Attempt) (l : Lease) (h : Hold) (s t : Store)
    → commit c q a s ≡ (ok (l, h), t)
    → (r : Reservation) × (old : Lease) × Found a r old s
      × (Moved c q (lease_key r.expected.job r.expected.session) a.reservation r old l s t
          ⊎ Adopted c q (lease_key r.expected.job r.expected.session) r old l s t)
commit_outcome c q a l h s t e =
    let (r, old, found, done) = commit-Found c q a l h s t e in
    (
      r,
      old,
      found,
      elim (Bool-cases (is_committed c r old)) [
        | inl again ↦ inr (commit_lease-Adopted c q _ a.reservation r old l h s t again done)
        | inr first ↦ inl (commit_lease-Moved c q _ a.reservation r old l h s t first done)
      ],
    )
