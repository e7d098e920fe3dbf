-- ===== src/Examples/Saving.antt =====
-- Files saved and rolled back, on a small disk.
use proxyfleet.Base.{
  ◌==◌, ◌≡◌, Bool, true, false, refl, Option, none, some, List, [], ◌∷◌, Bytes, is_nil,
  if◌then◌else◌, lookup, All, codes, bytes_key, bytes_eq, arith,
}
use proxyfleet.Monitor.Adaptive.{bytes_less}
use proxyfleet.Config.Files.{
  prepare_snapshot_pairs, pair_up, verdict_of, restore_files, restore_file, write_file, image_of,
  common_bits, Paths, Disk, File, FileSnapshot, fine, refused, private, Faults, restored,
  restore_file_snapshots_cas, snapshot_file, same_file_snapshot,
}
use proxyfleet.Config.Files.Images.{content_of, wanted}
use proxyfleet.Config.Files.Restoring.{restore_cas-Kept, restore_cas-Back}
use proxyfleet.Config.Files.Transaction.{
  transact, ordered_unique_file_paths, unique_paths, node_paths, node_changes, snapshot_files,
  make_changes, merge_expected, write_file_snapshot, join_lines, subscription_paths,
  subscription_changes, Trouble, rolled_back, NodePlan, save_nodes_transaction, Subscription,
  save_subscription_state_transaction,
}
use proxyfleet.Config.Files.Changes.{SameContents}
use proxyfleet.Config.Files.Rollback.{save_nodes-Same}

abbrev plain_paths : Paths
plain_paths = record { is_blank = is_nil; cleaned = λ p. p; key = λ p. p; key_cleaned = λ p. refl }

abbrev config_path : Bytes
config_path = codes "c"

abbrev nodes_path : Bytes
nodes_path = codes "n"

abbrev auth_path : Bytes
auth_path = codes "u"

abbrev file : Bytes → File
file content = record { content = content; perm = private }

abbrev small_disk : Disk
small_disk = (config_path, file (codes "old")) ∷ (nodes_path, file (codes "a")) ∷ []

abbrev image : Bytes → Bytes → FileSnapshot
image path content = record { path = path; content = content; perm = private; existed = true }

abbrev no_faults : Faults
no_faults = record { unreadable = λ _. false; restoring = λ _. fine }

-- Somebody else has written the configuration file since.
abbrev newer_disk : Disk
newer_disk = (config_path, file (codes "newer")) ∷ (nodes_path, file (codes "b")) ∷ []

abbrev images_before : List FileSnapshot
images_before = image config_path (codes "old") ∷ image nodes_path (codes "a") ∷ []

abbrev images_after : List FileSnapshot
images_after = image config_path (codes "new") ∷ image nodes_path (codes "b") ∷ []

restore_cas-Kept_example :
    lookup config_path
      (restore_file_snapshots_cas plain_paths no_faults images_before images_after newer_disk).1
    ≡ lookup config_path newer_disk
unfolding same_file_snapshot snapshot_file image_of proxyfleet.Base.lookup
    proxyfleet.Base.bytes_discrete
restore_cas-Kept_example =
    restore_cas-Kept plain_paths no_faults images_before images_after config_path newer_disk
      ((λ _. refl), ((λ e. absurd (ground (arith, e))), tt))

-- The disk as the transaction left it.
abbrev saved_disk : Disk
saved_disk = (config_path, file (codes "new")) ∷ (nodes_path, file (codes "b")) ∷ []

was_restored :
    (restore_file_snapshots_cas plain_paths no_faults images_before images_after saved_disk).0
    ≡ restored
unfolding restore_file_snapshots_cas prepare_snapshot_pairs pair_up verdict_of same_file_snapshot
    snapshot_file restore_files restore_file write_file image_of bytes_less proxyfleet.Base.lookup
    proxyfleet.Base.insert proxyfleet.Base.bytes_discrete
was_restored = refl

restore_cas-Back_example :
    All
      (λ s.
        content_of (
          lookup
            (plain_paths.key s.path)
            (restore_file_snapshots_cas plain_paths no_faults images_before images_after
              saved_disk).1)
        ≡ wanted s)
      images_before
restore_cas-Back_example =
    restore_cas-Back plain_paths no_faults images_before images_after saved_disk was_restored

-- The last change cannot be written.
abbrev trouble : Trouble
trouble = record {
  unreadable = λ _. false;
  writing = λ left. if left == 0 then refused else fine;
  lost = λ _. false;
  restoring = λ _. fine;
}

abbrev plan : NodePlan
plan = record {
  file_path = config_path;
  nodes_path = nodes_path;
  auth_path = auth_path;
  port_map_path = codes "p";
  write_nodes = true;
  external_uris = codes "x" ∷ [];
  keeps_ports = false;
  removes_auth = false;
  config_nodes = λ old. some (codes "new");
  saved_auth = λ old. some (codes "auth");
  removed_auth = λ old. none;
  ports = λ old. none;
}

nodes_rolled_back : (save_nodes_transaction plain_paths trouble plan small_disk).0 ≡ rolled_back
unfolding save_nodes_transaction transact ordered_unique_file_paths unique_paths node_paths
    node_changes snapshot_files make_changes merge_expected write_file_snapshot join_lines
    snapshot_file restore_files restore_file write_file image_of bytes_less common_bits
    proxyfleet.Base.lookup proxyfleet.Base.insert proxyfleet.Base.bytes_discrete
nodes_rolled_back = refl

save_nodes-Same_example :
    SameContents plain_paths small_disk
      (save_nodes_transaction plain_paths trouble plan small_disk).1
save_nodes-Same_example =
    save_nodes-Same plain_paths trouble plan small_disk
      (record { config_file = refl; nodes_file = refl; auth_file = refl }) refl nodes_rolled_back

abbrev subscription : Subscription
subscription = record {
  file_path = config_path;
  nodes_file = [];
  default_nodes = nodes_path;
  auth_path = auth_path;
  uris = codes "x" ∷ codes "y" ∷ [];
  clear_external_auth = true;
  settings = λ old. some (codes "new");
  cleared_auth = λ old. some [];
}

settings_rolled_back :
    (save_subscription_state_transaction plain_paths trouble subscription small_disk).0
    ≡ rolled_back
unfolding save_subscription_state_transaction transact ordered_unique_file_paths unique_paths
    subscription_paths subscription_changes snapshot_files make_changes merge_expected
    write_file_snapshot join_lines snapshot_file restore_files restore_file write_file image_of
    bytes_less common_bits proxyfleet.Base.lookup proxyfleet.Base.insert
    proxyfleet.Base.bytes_discrete
settings_rolled_back = refl
