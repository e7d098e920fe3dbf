-- ===== src/Jobs/Store/Sweeps.antt =====
-- What a sweep of idle sessions removes and what it leaves.
use proxyfleet.Base.{
  ℕ, ◌+◌, ◌≤◌, ◌<◌, ◌≡◌, ◌≢◌, ◌⊎◌, inl, inr, true, not, none, some, List, ◌∷◌, ◌++◌, subst, Bytes,
  bytes_discrete, bytes_key, lookup, keep_entries, kept, Distinct, lookup-keep_entries,
  lookup-insert_all, lookup-insert_self, Option-cases, Bool-cases, sym, ap, ◌∙◌, arith,
}
use proxyfleet.Jobs.Store.Config.{JobConfig}
use proxyfleet.Jobs.Store.Lease.{Lease, Codec, version, activity_key, lease_key}
use proxyfleet.Jobs.Store.State.{Error, ok, err, Store, Write, save}
use proxyfleet.Jobs.Store.Activity.{
  Hold, connections, hold, hold_locked, idle_since, timeout_of, is_idle, sweep_idle,
}

-- A session that may be reclaimed: its job reclaims, no failover is pending for it, no connection
-- uses it, and both its last use and the opening of the store lie a whole timeout back.
pub record Idle (c : Codec) (configured : List JobConfig) (now : ℕ) (s : Store) (k : Bytes)
    (l : Lease) : Type 0 where
  pub reclaimed : 0 < timeout_of 0 l.job configured
  pub unreserved : lookup k s.failovers ≡ none
  pub unused : connections s (activity_key c l) ≡ 0
  pub rested : l.last_used_at + timeout_of 0 l.job configured ≤ now
  pub reopened : s.opened_at + timeout_of 0 l.job configured ≤ now

is_idle-Idle :
    (c : Codec) (configured : List JobConfig) (now : ℕ) (s : Store) (k : Bytes) (l : Lease)
    → is_idle c configured now s k l ≡ true
    → Idle c configured now s k l
unfolding is_idle idle_since
is_idle-Idle c configured now s k l h = ground arith

Idle-is_idle :
    (c : Codec) (configured : List JobConfig) (now : ℕ) (s : Store) (k : Bytes) (l : Lease)
    → Idle c configured now s k l
    → is_idle c configured now s k l ≡ true
unfolding is_idle idle_since
Idle-is_idle c configured now s k l h = ground arith

module _ (c : Codec) (configured : List JobConfig) (now : ℕ) (written : Write) (s : Store) where
  -- A key keeps its value or is filtered.
  sweep_lookup :
      (k : Bytes)
      → Distinct s.leases
      → let t = (sweep_idle c configured now written s).1 in
        (lookup k t.leases ≡ lookup k s.leases)
        ⊎ (lookup k t.leases
            ≡ kept (λ k l. not (is_idle c configured now s k l)) k (lookup k s.leases))
  unfolding sweep_idle save
  sweep_lookup k d = ground (
    arith,
    lookup-keep_entries (λ k l. not (is_idle c configured now s k l)) k s.leases d,
    lookup-keep_entries (is_idle c configured now s) k s.leases d,
    lookup-insert_all k (keep_entries (is_idle c configured now s) s.leases)
        (keep_entries (λ k l. not (is_idle c configured now s k l)) s.leases),
  )

  -- A sweep that is not fenced and that can write filters every key; a failed write undoes it.
  sweep_ok :
      (n : ℕ) (t : Store) (k : Bytes)
      → Distinct s.leases
      → s.assignment_pauses ≡ 0
      → sweep_idle c configured now written s ≡ (ok n, t)
      → lookup k t.leases ≡ kept (λ k l. not (is_idle c configured now s k l)) k (lookup k s.leases)
  unfolding sweep_idle save
  sweep_ok n t k d free h =
      ground (arith, lookup-keep_entries (λ k l. not (is_idle c configured now s k l)) k s.leases d)

  sweep_err :
      (e : Error) (t : Store) (k : Bytes)
      → Distinct s.leases
      → sweep_idle c configured now written s ≡ (err e, t)
      → lookup k t.leases ≡ lookup k s.leases
  unfolding sweep_idle save
  sweep_err e t k d h = ground (
    arith,
    lookup-keep_entries (λ k l. not (is_idle c configured now s k l)) k s.leases d,
    lookup-keep_entries (is_idle c configured now s) k s.leases d,
    lookup-insert_all k (keep_entries (is_idle c configured now s) s.leases)
        (keep_entries (λ k l. not (is_idle c configured now s k l)) s.leases),
  )

-- A sweep takes only idle sessions: in a store without doubled keys, whatever a sweep returns, a session that had a lease either has
-- exactly that lease afterwards, or was idle: its job reclaims, no failover was pending, no
-- connection used it, and its last use and the opening of the store lay a whole timeout back.
pub sweep_idle-Idle :
    (c : Codec) (configured : List JobConfig) (now : ℕ) (written : Write) (s : Store) (k : Bytes)
    (l : Lease)
    → Distinct s.leases
    → lookup k s.leases ≡ some l
    → (lookup k (sweep_idle c configured now written s).1.leases ≡ some l)
      ⊎ Idle c configured now s k l
sweep_idle-Idle c configured now written s k l d found =
    elim (Bool-cases (is_idle c configured now s k l)) [
      | inl idle ↦ inr (is_idle-Idle c configured now s k l idle)
      | inr busy ↦ inl (ground (arith, found, busy, sweep_lookup c configured now written s k d))
    ]

-- A sweep is all or nothing: in a store without doubled keys and with no pause, if it succeeds,
-- every idle session has lost its lease, and no session has gained one; if it fails, every session
-- has the lease that it had.
pub sweep_idle-all_or_nothing :
    (c : Codec) (configured : List JobConfig) (now : ℕ) (written : Write) (s : Store) (k : Bytes)
    → Distinct s.leases
    → s.assignment_pauses ≡ 0
    → ((n : ℕ) (t : Store)
        → sweep_idle c configured now written s ≡ (ok n, t)
        → ((l : Lease)
            → lookup k s.leases ≡ some l
            → Idle c configured now s k l
            → lookup k t.leases ≡ none)
          × (lookup k s.leases ≡ none → lookup k t.leases ≡ none))
      × ((e : Error) (t : Store)
          → sweep_idle c configured now written s ≡ (err e, t)
          → lookup k t.leases ≡ lookup k s.leases)
sweep_idle-all_or_nothing c configured now written s k d free = (
  λ n t h.
      let filtered = sweep_ok c configured now written s n t k d free h in
      (
        λ l found idle. ground (arith, filtered, found, Idle-is_idle c configured now s k l idle),
        λ absent. ground (arith, filtered, absent),
      ),
  λ e t h. sweep_err c configured now written s e t k d h,
)

version-use :
    (c : Codec) (l : Lease) (at : ℕ) → version c (record l { last_used_at = at }) ≡ version c l
unfolding version
version-use c l at = ground arith

activity_key-use :
    (c : Codec) (l : Lease) (at : ℕ)
    → activity_key c (record l { last_used_at = at }) ≡ activity_key c l
unfolding activity_key
activity_key-use c l at = ap (λ v. lease_key l.job l.session ++ (0 ∷ v)) (version-use c l at)

-- What a successful `Hold` leaves.
record Held (c : Codec) (now : ℕ) (k : Bytes) (l : Lease) (t : Store) : Type 0 where
  stored : lookup k t.leases ≡ some (record l { last_used_at = now })
  counted : connections t (activity_key c l) ≢ 0

hold_locked-Held :
    (c : Codec) (now : ℕ) (k : Bytes) (l : Lease) (s : Store)
    → Held c now k l (hold_locked c now k l s).1
unfolding hold_locked
hold_locked-Held c now k l s = ground (
  arith,
  lookup-insert_self k (record l { last_used_at = now }) s.leases,
  lookup-insert_self (activity_key c l) (connections s (activity_key c l) + 1) s.active,
)

hold_result :
    (c : Codec) (now : ℕ) (job session revision : Bytes) (h : Hold) (s t : Store)
    → hold c now job session revision s ≡ (ok h, t)
    → (l : Lease) × (lookup (lease_key job session) s.leases ≡ some l)
      × (version c l ≡ revision)
      × (t ≡ (hold_locked c now (lease_key job session) l s).1)
unfolding hold bytes_discrete
hold_result c now job session revision h s t e =
    elim (Option-cases (lookup (lease_key job session) s.leases)) [
      | inl free ↦ absurd (ground (arith, free))
      | inr (l, found) ↦ (l, found, ground (arith, found), ground (arith, found))
    ]

-- A connection keeps its session: right after a successful `Hold` that leaves no doubled keys, the session has the lease of the
-- revision that was asked for, used just now, and whatever the configuration and however late the
-- sweep, a sweep leaves exactly that lease in place.
pub hold-sweep_idle :
    (c : Codec) (now later : ℕ) (job session revision : Bytes) (configured : List JobConfig)
    (written : Write) (h : Hold) (s t : Store)
    → Distinct t.leases
    → hold c now job session revision s ≡ (ok h, t)
    → (l : Lease) × (lookup (lease_key job session) s.leases ≡ some l)
      × (version c l ≡ revision)
      × (lookup (lease_key job session) (sweep_idle c configured later written t).1.leases
          ≡ some (record l { last_used_at = now }))
hold-sweep_idle c now later job session revision configured written h s t d e =
    let (l, found, fenced, same) = hold_result c now job session revision h s t e in
    let held : Held c now (lease_key job session) l t =
      subst (Held c now (lease_key job session) l) (sym same)
        (hold_locked-Held c now (lease_key job session) l s) in
    (
      l,
      found,
      fenced,
      elim (sweep_idle-Idle c configured later written t (lease_key job session)
          (record l { last_used_at = now }) d held.stored) [
            | inl kept_lease ↦ kept_lease
            | inr idle ↦
                absurd
                  (held.counted (ap (connections t) (sym (activity_key-use c l now)) ∙ idle.unused))
          ],
    )
