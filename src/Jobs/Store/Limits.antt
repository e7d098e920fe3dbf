-- ===== src/Jobs/Store/Limits.antt =====
-- What a successful `Acquire` keeps: the account limit of the node, the session limit of the job,
-- the size of the store.
use proxyfleet.Base.{
  ◌+◌, ◌≤◌, ◌<◌, ◌≡◌, ◌≢◌, true, false, none, some, List, [], Bytes, bytes_discrete, bytes_key,
  ℕ_key, lookup, insert, length, length-insert, lookup-insert_self, count_values,
  count_values-insert, if◌then◌else◌, ap, sym, ◌∙◌, subst, arith,
}
use proxyfleet.Jobs.Store.Config.{JobConfig}
use proxyfleet.Jobs.Store.Lease.{Lease, SelectedNode, Codec, lease_key, new_lease}
use proxyfleet.Jobs.Store.State.{ok, Store, Write, save, on_node, of_job, account_load}
use proxyfleet.Jobs.Store.Bindings.{Request, choose_node, is_full, bind, acquire_new, acquire}
use proxyfleet.Jobs.Store.Accounts.{reserved_accounts-insert_le}
use proxyfleet.Jobs.Store.Choice.{AllNamed, IsLeast, choose_node_lem}

-- What a new binding to `node` does to the store.
pub record Bound (k : Bytes) (l : Lease) (s t : Store) : Type 0 where
  pub leases : t.leases ≡ insert k l s.leases
  pub failovers : t.failovers ≡ s.failovers
  pub reservations : t.reservations ≡ s.reservations
  pub saved : s.persistent ≡ true → t.disk ≡ t.leases

-- What `Acquire` has checked when it binds a new session.
pub record Acquired (j : JobConfig) (session : Bytes) (ranked : List SelectedNode) (l : Lease)
    (s t : Store) : Type 0 where
  pub job : l.job ≡ j.name
  pub node : l.node ≡ choose_node j.max_accounts_per_node (account_load s j.name) [] ranked
  pub named : l.node ≢ []
  pub sessions : count_values (of_job j.name) s.leases < j.max_sessions
  pub total : length s.leases < 4096
  pub bound : Bound (lease_key j.name session) l s t

bind-Bound :
    (c : Codec) (written : Write) (k : Bytes) (l l' : Lease) (s t : Store)
    → bind c written k l s ≡ (ok l', t)
    → (l' ≡ l) × Bound k l s t
unfolding bind save
bind-Bound c written k l l' s t e = ground arith

acquire_new-Acquired :
    (c : Codec) (q : Request) (j : JobConfig) (policy session : Bytes) (ranked : List SelectedNode)
    (l : Lease) (s t : Store)
    → acquire_new c q j policy session ranked s ≡ (ok l, t)
    → Acquired j session ranked l s t
unfolding acquire_new new_lease bytes_discrete bind save
acquire_new-Acquired c q j policy session ranked l s t e = ground arith

pub acquire-Acquired :
    (c : Codec) (q : Request) (j : JobConfig) (policy session : Bytes) (ranked : List SelectedNode)
    (l : Lease) (s t : Store)
    → lookup (lease_key j.name session) s.leases ≡ none
    → acquire c q j policy session ranked s ≡ (ok l, t)
    → Acquired j session ranked l s t
unfolding acquire
acquire-Acquired c q j policy session ranked l s t free e =
    acquire_new-Acquired c q j policy session ranked l s t (rw (free, acquire) at e)

-- A new lease adds one account to its node and none elsewhere.
account_load-Bound :
    (k : Bytes) (l : Lease) (s t : Store) (job n : Bytes)
    → lookup k s.leases ≡ none
    → Bound k l s t
    → account_load t job n ≤ account_load s job n + (if on_node job n l then 1 else 0)
unfolding account_load
account_load-Bound k l s t job n free b =
    rw (b.leases, b.failovers, b.reservations)
      (omega (
        arith,
        count_values-insert (on_node job n) k l s.leases free,
        reserved_accounts-insert_le s.reservations s.leases job n k l s.failovers free,
      ))

-- What holds after a session has been bound.
pub record WithinLimits (j : JobConfig) (session : Bytes) (ranked : List SelectedNode) (l : Lease)
    (s t : Store) : Type 0 where
  pub node_limit :
      0 < j.max_accounts_per_node → account_load t j.name l.node ≤ j.max_accounts_per_node
  pub others : (n : Bytes) → n ≢ l.node → account_load t j.name n ≤ account_load s j.name n
  pub least : IsLeast j.max_accounts_per_node (account_load s j.name) l.node ranked
  pub sessions : count_values (of_job j.name) t.leases ≤ j.max_sessions
  pub total : length t.leases ≤ 4096
  pub stored : lookup (lease_key j.name session) t.leases ≡ some l

within_limits :
    (j : JobConfig) (session : Bytes) (ranked : List SelectedNode) (l : Lease) (s t : Store)
    → AllNamed ranked
    → lookup (lease_key j.name session) s.leases ≡ none
    → Acquired j session ranked l s t
    → WithinLimits j session ranked l s t
unfolding bytes_discrete
within_limits j session ranked l s t named free a =
    let k = lease_key j.name session in
    let limit = j.max_accounts_per_node in
    let load = account_load s j.name in
    let choice = (choose_node_lem limit load ranked named).0 (λ e. a.named (a.node ∙ e)) in
    let room : is_full limit (load l.node) ≡ false =
      subst (λ n. is_full limit (load n) ≡ false) (sym a.node) choice.0 in
    record {
      node_limit =
          λ some_limit. ground (arith, room, account_load-Bound k l s t j.name l.node free a.bound);
      others = λ n other. ground (arith, other, account_load-Bound k l s t j.name n free a.bound);
      least = subst (λ n. IsLeast limit load n ranked) (sym a.node) choice.2;
      sessions =
          rw a.bound.leases
            (ground (arith, a.sessions, count_values-insert (of_job j.name) k l s.leases free));
      total = rw a.bound.leases (omega (arith, a.total, length-insert k l s.leases free));
      stored = ap (lookup k) a.bound.leases ∙ lookup-insert_self k l s.leases;
    }

-- Binding a session that had no lease keeps every limit: with a ranking of nodes with names, if
-- `Acquire` succeeds, then afterwards the chosen node carries no more accounts of the job than its
-- limit (reservations for failover included, a limit of 0 being none), no other node carries more
-- than before, no candidate with room carried fewer accounts, the job has no more sessions than its
-- limit, the store holds at most 4096 leases, and the session's lease is the one returned.
pub acquire-WithinLimits :
    (c : Codec) (q : Request) (j : JobConfig) (policy session : Bytes) (ranked : List SelectedNode)
    (l : Lease) (s t : Store)
    → AllNamed ranked
    → lookup (lease_key j.name session) s.leases ≡ none
    → acquire c q j policy session ranked s ≡ (ok l, t)
    → WithinLimits j session ranked l s t
acquire-WithinLimits c q j policy session ranked l s t named free e =
    within_limits j session ranked l s t named free
      (acquire-Acquired c q j policy session ranked l s t free e)
