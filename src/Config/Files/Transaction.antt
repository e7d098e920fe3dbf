-- ===== src/Config/Files/Transaction.antt =====
-- internal/config/node_transaction.go: changes of several files as one operation that can be rolled
-- back, and the writing of one file in internal/config/config.go. What a change makes of a
-- file's content is an argument: YAML and the port map are encoded elsewhere.
use proxyfleet.Base.{
  ℕ, length, Bool, true, false, ◌||◌, if◌then◌else◌, Option, none, some, List, [], ◌∷◌, ◌++◌, Bytes,
  bytes_eq, bytes_key, lookup, is_nil, sort_by,
}
use proxyfleet.Monitor.Adaptive.{bytes_less}
use proxyfleet.Config.Jobs.{elem}
use proxyfleet.Config.Files.{
  Disk, FileSnapshot, Paths, Fault, private, snapshot_file, write_file, restore_files, Faults,
  Restored, restore_file_snapshots_cas,
}
use proxyfleet.Config.Files.Images.{content_of}

-- One file's change: its path, and its new content by the old one; `none` if that cannot be had.
pub record Change : Type 0 where
  pub path : Bytes
  pub make : Option Bytes → Option Bytes

-- Which operations fail: the first reading of a file, by its key; of the changes, each by the number
-- of those behind it, the writing and the reading of what was written; and the restoration of a
-- file behind a failure, by its key.
pub record Trouble : Type 0 where
  pub unreadable : Bytes → Bool
  pub writing : ℕ → Fault
  pub lost : ℕ → Bool
  pub restoring : Bytes → Fault

pub data Transacted : Type 0 where
  no_path : Transacted
  same_paths : Transacted
  not_started : Transacted
  committed : List FileSnapshot → List FileSnapshot → Transacted
  rolled_back : Transacted
  rollback_failed : Transacted

-- `writeNodesToFileLockedSnapshot`: a line for each URI.
unfoldable pub join_lines : List Bytes → Bytes
join_lines [] = []
join_lines (uri ∷ uris) = uri ++ (10 ∷ join_lines uris)

-- `transformFileLockedSnapshot`: a file that is not there cannot be transformed.
abbrev pub transforming : (Bytes → Option Bytes) → Option Bytes → Option Bytes
transforming transform none = none
transforming transform (some old) = transform old

abbrev pub add_front : FileSnapshot → Option (List FileSnapshot) → Option (List FileSnapshot)
add_front s none = none
add_front s (some rest) = some (s ∷ rest)

abbrev pub go_on :
    (List FileSnapshot → Disk → Option (List FileSnapshot) × Disk)
    → Option (List FileSnapshot) × Disk
    → Option (List FileSnapshot) × Disk
go_on rest (none, d) = (none, d)
go_on rest (some expected, d) = rest expected d

-- What `SaveSubscriptionStateTransaction` reads of the configuration. `default_nodes` is `nodes.txt`
-- beside the configuration file.
pub record Subscription : Type 0 where
  pub file_path : Bytes
  pub nodes_file : Bytes
  pub default_nodes : Bytes
  pub auth_path : Bytes
  pub uris : List Bytes
  pub clear_external_auth : Bool
  pub settings : Bytes → Option Bytes
  pub cleared_auth : Option Bytes → Option Bytes

-- What `SaveNodesTransaction` reads: the node files' plan, whether authentication overrides are to be
-- removed, and whether the mode keeps a port map.
pub record NodePlan : Type 0 where
  pub file_path : Bytes
  pub nodes_path : Bytes
  pub auth_path : Bytes
  pub port_map_path : Bytes
  pub write_nodes : Bool
  pub external_uris : List Bytes
  pub keeps_ports : Bool
  pub removes_auth : Bool
  pub config_nodes : Bytes → Option Bytes
  pub saved_auth : Option Bytes → Option Bytes
  pub removed_auth : Option Bytes → Option Bytes
  pub ports : Option Bytes → Option Bytes

abbrev pub when : {A : Type 0} → Bool → A → List A
when b a = if b then a ∷ [] else []

module _ (ps : Paths) where
  -- The map by key, in which the first path of a key stays.
  unfoldable pub unique_paths : List Bytes → List Bytes → List Bytes
  unique_paths seen [] = []
  unique_paths seen (p ∷ rest) =
      let skipped = unique_paths seen rest in
      let more = unique_paths (ps.key p ∷ seen) rest in
      if ps.is_blank p || elem (ps.key p) seen then skipped else ps.cleaned p ∷ more

  abbrev pub path_below : Bytes → Bytes → Bool
  path_below p q = bytes_less (ps.key p) (ps.key q)

  unfoldable pub ordered_unique_file_paths : List Bytes → List Bytes
  ordered_unique_file_paths paths = sort_by path_below (unique_paths [] paths)

  unfoldable pub snapshot_files : (Bytes → Bool) → List Bytes → Disk → Option (List FileSnapshot)
  snapshot_files unreadable [] d = some []
  snapshot_files unreadable (p ∷ paths) d =
      let rest = snapshot_files unreadable paths d in
      if unreadable (ps.key p) then none else add_front (snapshot_file ps p d) rest

  -- `mergeExpectedSnapshot`: `none` if the path was not snapshotted.
  unfoldable pub merge_expected : FileSnapshot → List FileSnapshot → Option (List FileSnapshot)
  merge_expected update [] = none
  merge_expected update (s ∷ expected) =
      let rest = merge_expected update expected in
      if bytes_eq (ps.key s.path) (ps.key update.path)
      then some (update ∷ expected)
      else add_front s rest

  abbrev pub read_back : Bool → Bytes → Bool × Disk → Option FileSnapshot × Disk
  read_back lost path (false, d) = (none, d)
  read_back lost path (true, d) = (if lost then none else some (snapshot_file ps path d), d)

  -- `writeFileLockedSnapshot`.
  unfoldable pub write_file_snapshot :
      Trouble → ℕ → Bytes → Bytes → Disk → Option FileSnapshot × Disk
  write_file_snapshot t left path content d =
      read_back (t.lost left) path (write_file ps (t.writing left) path content private d)

  abbrev pub write_made : Trouble → ℕ → Bytes → Option Bytes → Disk → Option FileSnapshot × Disk
  write_made t left path none d = (none, d)
  write_made t left path (some content) d = write_file_snapshot t left path content d

  abbrev pub make_change : Trouble → ℕ → Change → Disk → Option FileSnapshot × Disk
  make_change t left c d =
      write_made t left c.path (c.make (content_of (lookup (ps.key c.path) d))) d

  abbrev pub merge_written :
      List FileSnapshot → Option FileSnapshot × Disk → Option (List FileSnapshot) × Disk
  merge_written expected (none, d) = (none, d)
  merge_written expected (some s, d) = (merge_expected s expected, d)

  -- The changes one after the other, up to the first that fails, with the images expected behind them.
  unfoldable pub make_changes :
      Trouble → List Change → List FileSnapshot → Disk → Option (List FileSnapshot) × Disk
  make_changes t [] expected d = (some expected, d)
  make_changes t (c ∷ cs) expected d =
      go_on (make_changes t cs) (merge_written expected (make_change t (length cs) c d))

  -- `rollbackNodeFilesLocked`.
  abbrev pub after_rollback : Bool × Disk → Transacted × Disk
  after_rollback (ok, d) = (if ok then rolled_back else rollback_failed, d)

  abbrev pub conclude :
      Trouble → List FileSnapshot → Option (List FileSnapshot) × Disk → Transacted × Disk
  conclude t before (none, d) = after_rollback (restore_files ps t.restoring before d)
  conclude t before (some expected, d) = (committed before expected, d)

  abbrev pub transact_from :
      Trouble → List Change → Option (List FileSnapshot) → Disk → Transacted × Disk
  transact_from t cs none d = (not_started, d)
  transact_from t cs (some before) d = conclude t before (make_changes t cs before d)

  unfoldable pub transact : Trouble → List Bytes → List Change → Disk → Transacted × Disk
  transact t paths cs d = transact_from t cs (snapshot_files t.unreadable paths d) d

  abbrev pub nodes_path_of : Subscription → Bytes
  nodes_path_of c = if ps.is_blank c.nodes_file then c.default_nodes else c.nodes_file

  unfoldable pub subscription_changes : Subscription → List Change
  subscription_changes c =
      record { path = c.file_path; make = transforming c.settings }
      ∷ record { path = nodes_path_of c; make = λ _. some (join_lines c.uris) }
      ∷ (if c.clear_external_auth
          then record { path = c.auth_path; make = c.cleared_auth } ∷ []
          else [])

  unfoldable pub subscription_paths : Subscription → List Bytes
  subscription_paths c =
      c.file_path ∷ nodes_path_of c ∷ (if c.clear_external_auth then c.auth_path ∷ [] else [])

  unfoldable pub save_subscription_state_transaction :
      Trouble → Subscription → Disk → Transacted × Disk
  save_subscription_state_transaction t c d =
      if is_nil c.file_path
      then (no_path, d)
      else if bytes_eq (ps.cleaned c.file_path) (ps.cleaned (nodes_path_of c))
      then (same_paths, d)
      else transact t (ordered_unique_file_paths (subscription_paths c)) (subscription_changes c) d

  unfoldable pub node_changes : NodePlan → List Change
  node_changes n =
      when n.write_nodes
        (record { path = n.nodes_path; make = λ _. some (join_lines n.external_uris) })
      ++ (record { path = n.file_path; make = transforming n.config_nodes }
          ∷ record { path = n.auth_path; make = n.saved_auth }
          ∷ (when n.removes_auth (record { path = n.auth_path; make = n.removed_auth })
              ++ when n.keeps_ports (record { path = n.port_map_path; make = n.ports })))

  unfoldable pub node_paths : NodePlan → List Bytes
  node_paths n =
      n.file_path
      ∷ n.auth_path
      ∷ (when n.write_nodes n.nodes_path ++ when n.keeps_ports n.port_map_path)

  unfoldable pub save_nodes_transaction : Trouble → NodePlan → Disk → Transacted × Disk
  save_nodes_transaction t n d =
      if is_nil n.file_path
      then (no_path, d)
      else transact t (ordered_unique_file_paths (node_paths n)) (node_changes n) d

  -- The function that a committed transaction returns.
  abbrev pub roll_back : Faults → List FileSnapshot → List FileSnapshot → Disk → Restored × Disk
  roll_back f before expected d = restore_file_snapshots_cas ps f before expected d
