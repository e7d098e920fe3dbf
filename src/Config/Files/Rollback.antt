-- ===== src/Config/Files/Rollback.antt =====
-- A transaction that fails takes its changes back.
use proxyfleet.Base.{
  ◌≡◌, ◌≢◌, Bool, true, false, ◌||◌, sym, ◌∙◌, List, [], ◌∷◌, Bytes, bytes_key, bytes_eq, All,
  All-append, All-parts, if_cases, if◌then◌else◌, arith, bytes_discrete, is_nil,
}
use proxyfleet.Config.Jobs.{elem}
use proxyfleet.Config.Files.{Disk, Paths}
use proxyfleet.Config.Files.Pairing.{All-sort_by_back}
use proxyfleet.Config.Files.Transaction.{
  Change, Trouble, Transacted, rolled_back, unique_paths, path_below, ordered_unique_file_paths,
  snapshot_files, transact, Subscription, nodes_path_of, subscription_changes, subscription_paths,
  save_subscription_state_transaction, NodePlan, when, node_changes, node_paths,
  save_nodes_transaction,
}
use proxyfleet.Config.Files.Changes.{
  Covers, SameContents, snapshot_files-IsImages, transact_from-Same,
}

module _ (ps : Paths) where
  not_elem : (k j : Bytes) (seen : List Bytes) → elem j seen ≡ true → All (λ i. i ≢ k) seen → j ≢ k
  not_elem k j [] e h = absurd (ground (arith, e))
  not_elem k j (i ∷ seen) e h = elim (bytes_discrete j i) [
    | yes same ↦ (λ eq. h.0 (sym same ∙ eq))
    | no ne ↦ not_elem k j seen (ground (arith, e, ne)) h.1
  ]

  -- The paths that are locked name every file of the paths asked for.
  unique_paths_cover :
      (k : Bytes) (seen paths : List Bytes)
      → All (λ j. j ≢ k) seen
      → All (λ p. ps.key p ≢ k) (unique_paths ps seen paths)
      → All (λ p. ps.is_blank p ≡ false → ps.key p ≢ k) paths
  unfolding unique_paths
  unique_paths_cover k seen [] s = λ h. tt
  unique_paths_cover k seen (p ∷ paths) s =
      if_cases
        (λ (l : List Bytes).
          All (λ q. ps.key q ≢ k) l → All (λ q. ps.is_blank q ≡ false → ps.key q ≢ k) (p ∷ paths))
        (ps.is_blank p || elem (ps.key p) seen)
        (λ c h. (
          λ b. not_elem k (ps.key p) seen (ground (arith, b, c)) s,
          unique_paths_cover k seen paths s h,
        ))
        (λ _ h.
          let ne : ps.key p ≢ k = λ e. h.0 (ps.key_cleaned p ∙ e) in
          ((λ _. ne), unique_paths_cover k (ps.key p ∷ seen) paths (ne, s) h.1))

  ordered_paths_cover :
      (k : Bytes) (paths : List Bytes)
      → All (λ p. ps.key p ≢ k) (ordered_unique_file_paths ps paths)
      → All (λ p. ps.is_blank p ≡ false → ps.key p ≢ k) paths
  unfolding ordered_unique_file_paths
  ordered_paths_cover k paths h =
      unique_paths_cover k [] paths tt
        (All-sort_by_back _ (path_below ps) (unique_paths ps [] paths) h)

  -- The paths of a configuration's files are none of them blank.
  pub record Named (file_path nodes_path auth_path : Bytes) : Type 0 where
    pub config_file : ps.is_blank file_path ≡ false
    pub nodes_file : ps.is_blank nodes_path ≡ false
    pub auth_file : ps.is_blank auth_path ≡ false

  transact-Same :
      (t : Trouble) (paths : List Bytes) (cs : List Change) (d : Disk)
      → Covers ps (ordered_unique_file_paths ps paths) cs
      → (transact ps t (ordered_unique_file_paths ps paths) cs d).0 ≡ rolled_back
      → SameContents ps d (transact ps t (ordered_unique_file_paths ps paths) cs d).1
  unfolding transact
  transact-Same t paths cs d c done =
      let locked = ordered_unique_file_paths ps paths in
      transact_from-Same ps t locked cs (snapshot_files ps t.unreadable locked d) d c
        (snapshot_files-IsImages ps t.unreadable locked d) done

  when_cover :
      {A : Type 0} {B : Type 0} {a : A} {b : B} (c : Bool) (P : A → Type 0) (Q : B → Type 0)
      → All P (if c then a ∷ [] else [])
      → (P a → Q b)
      → All Q (if c then b ∷ [] else [])
  when_cover true P Q h f = (f h.0, tt)
  when_cover false P Q h f = tt

  when_kept :
      {B : Type 0} {b : B} (c : Bool) (Q : B → Type 0) → Q b → All Q (if c then b ∷ [] else [])
  when_kept true Q q = (q, tt)
  when_kept false Q q = tt

  subscription_cover :
      (c : Subscription)
      → Named c.file_path (nodes_path_of ps c) c.auth_path
      → Covers ps
          (ordered_unique_file_paths ps (subscription_paths ps c))
          (subscription_changes ps c)
  unfolding subscription_paths subscription_changes
  subscription_cover c named k h =
      let a = ordered_paths_cover k (subscription_paths ps c) h in
      (
        a.0 named.config_file,
        (
          a.1.0 named.nodes_file,
          when_cover c.clear_external_auth (λ p. ps.is_blank p ≡ false → ps.key p ≢ k)
              (λ (e : Change). ps.key e.path ≢ k) a.1.1 (λ f. f named.auth_file),
        ),
      )

  -- A failed change of the subscriptions leaves every file's content: when `SaveSubscriptionStateTransaction`
  -- fails after it has begun, at whichever file and with whichever operation of the system, and
  -- its rollback does not fail too, then every file on the disk holds the content it held
  -- before, or is gone if it was not there. The files' paths must not be blank.
  pub save_subscription-Same :
      (t : Trouble) (c : Subscription) (d : Disk)
      → Named c.file_path (nodes_path_of ps c) c.auth_path
      → (save_subscription_state_transaction ps t c d).0 ≡ rolled_back
      → SameContents ps d (save_subscription_state_transaction ps t c d).1
  unfolding save_subscription_state_transaction
  save_subscription-Same t c d named =
      let P : Transacted × Disk → Type 0 = λ r. r.0 ≡ rolled_back → SameContents ps d r.1 in
      if_cases P (is_nil c.file_path) (λ _ e. absurd (ground (arith, e)))
        (λ _.
          if_cases P (bytes_eq (ps.cleaned c.file_path) (ps.cleaned (nodes_path_of ps c)))
            (λ _ e. absurd (ground (arith, e)))
            (λ _.
              transact-Same t (subscription_paths ps c) (subscription_changes ps c) d
                (subscription_cover c named)))

  node_cover :
      (n : NodePlan)
      → Named n.file_path n.nodes_path n.auth_path
      → ps.is_blank n.port_map_path ≡ false
      → Covers ps (ordered_unique_file_paths ps (node_paths ps n)) (node_changes ps n)
  unfolding node_paths node_changes
  node_cover n named ports k h =
      let P : Bytes → Type 0 = λ p. ps.is_blank p ≡ false → ps.key p ≢ k in
      let Q : Change → Type 0 = λ e. ps.key e.path ≢ k in
      let a = ordered_paths_cover k (node_paths ps n) h in
      let rest =
        All-parts P (when n.write_nodes n.nodes_path) (when n.keeps_ports n.port_map_path) a.1.1 in
      All-append Q _ _ (when_cover n.write_nodes P Q rest.0 (λ f. f named.nodes_file)) (
        a.0 named.config_file,
        (
          a.1.0 named.auth_file,
          All-append Q _ _ (when_kept n.removes_auth Q (a.1.0 named.auth_file))
              (when_cover n.keeps_ports P Q rest.1 (λ f. f ports)),
        ),
      )

  -- A failed change of the nodes leaves every file's content: when `SaveNodesTransaction` fails after
  -- it has begun, at whichever of its changes, in making the new content, in writing it or in
  -- reading it back, and the rollback does not fail too, then every file on the disk holds the
  -- content it held before, or is gone if it was not there (its permissions may be fewer). The
  -- files' paths must not be blank.
  pub save_nodes-Same :
      (t : Trouble) (n : NodePlan) (d : Disk)
      → Named n.file_path n.nodes_path n.auth_path
      → ps.is_blank n.port_map_path ≡ false
      → (save_nodes_transaction ps t n d).0 ≡ rolled_back
      → SameContents ps d (save_nodes_transaction ps t n d).1
  unfolding save_nodes_transaction
  save_nodes-Same t n d named ports =
      if_cases (λ (r : Transacted × Disk). r.0 ≡ rolled_back → SameContents ps d r.1)
        (is_nil n.file_path) (λ _ e. absurd (ground (arith, e)))
        (λ _. transact-Same t (node_paths ps n) (node_changes ps n) d (node_cover n named ports))
