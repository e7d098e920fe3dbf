-- ===== src/Config/Files.antt =====
-- internal/config/node_transaction.go and the writing of files in internal/config/config.go: images of
-- files, and their restoration. The disk is a map from the files' keys. Every operation holds the
-- sidecar locks of its files, so it acts at one moment. Which operations of the system fail is an
-- argument, and so are Go's functions on paths.
pub mod Transaction
pub mod Images
pub mod Pairing
pub mod Changes
pub mod Restoring
pub mod Rollback
use proxyfleet.Base.{
  ℕ, ◌≡◌, Bool, true, false, not, ◌&&◌, ◌||◌, ◌==◌, if◌then◌else◌, Option, none, some, List, [],
  ◌∷◌, length, Bytes, bytes_eq, bytes_key, lookup, insert, delete, sort_by,
}
use proxyfleet.Config.Jobs.{elem}
use proxyfleet.Monitor.Adaptive.{bytes_less}

-- The permission bits of a file, from the owner's on.
abbrev pub Perm : Type 0
Perm = List Bool

-- `0o600`.
abbrev pub private : Perm
private = true ∷ true ∷ false ∷ false ∷ false ∷ false ∷ false ∷ false ∷ false ∷ []

-- `&` on permissions.
unfoldable pub common_bits : Perm → Perm → Perm
common_bits [] q = []
common_bits (a ∷ p) [] = []
common_bits (a ∷ p) (b ∷ q) = (a && b) ∷ common_bits p q

abbrev bit_eq : Bool → Bool → Bool
bit_eq true b = b
bit_eq false b = not b

abbrev pub perm_eq : Perm → Perm → Bool
perm_eq [] [] = true
perm_eq [] (b ∷ q) = false
perm_eq (a ∷ p) [] = false
perm_eq (a ∷ p) (b ∷ q) = let rest = perm_eq p q in bit_eq a b && rest

pub record File : Type 0 where
  pub content : Bytes
  pub perm : Perm

abbrev pub Disk : Type 0
Disk = List (Bytes × File)

pub record FileSnapshot : Type 0 where
  pub path : Bytes
  pub content : Bytes
  pub perm : Perm
  pub existed : Bool

-- `strings.TrimSpace(p) == ""`, `filepath.Clean` made absolute, and `snapshotPathKey`, by which paths
-- name files.
pub record Paths : Type 0 where
  pub is_blank : Bytes → Bool
  pub cleaned : Bytes → Bytes
  pub key : Bytes → Bytes
  pub key_cleaned : (p : Bytes) → key (cleaned p) ≡ key p

-- How a change of a file may end: done, refused with the file as it was, or done but not synced.
pub data Fault : Type 0 where
  fine : Fault
  refused : Fault
  unsynced : Fault

unfoldable pub same_file_snapshot : FileSnapshot → FileSnapshot → Bool
same_file_snapshot a b =
    bit_eq a.existed b.existed
    && (not a.existed || perm_eq a.perm b.perm && bytes_eq a.content b.content)

unfoldable pub image_of : Bytes → Option File → FileSnapshot
image_of path none = record { path = path; content = []; perm = private; existed = false }
image_of path (some f) = record { path = path; content = f.content; perm = f.perm; existed = true }

-- `restrictiveWritePerm`: only ever fewer permissions than the file has.
abbrev pub effective_perm : Perm → Option File → Perm
effective_perm perm none = perm
effective_perm perm (some f) = common_bits perm f.perm

abbrev pub after_fault : Fault → Disk → Disk → Bool × Disk
after_fault fine before after = (true, after)
after_fault refused before after = (false, before)
after_fault unsynced before after = (false, after)

pub record Pair : Type 0 where
  pub before : FileSnapshot
  pub expected : FileSnapshot

pub data PairError : Type 0 where
  different_counts : PairError
  different_paths : PairError
  duplicate_path : PairError

pub data Pairs : Type 0 where
  pairs : List Pair → Pairs
  mismatch : PairError → Pairs

abbrev pub with_pair : Pair → Pairs → Pairs
with_pair p (pairs rest) = pairs (p ∷ rest)
with_pair p (mismatch e) = mismatch e

-- What the validation finds of one file: it already is as before, it is as the transaction left it, or
-- somebody else has changed it, or it cannot be read.
pub data Verdict : Type 0 where
  untouched : Verdict
  restorable : Verdict
  conflicting : Verdict

abbrev pub is_conflicting : Verdict → Bool
is_conflicting conflicting = true
is_conflicting _ = false

abbrev pub is_restorable : Verdict → Bool
is_restorable restorable = true
is_restorable _ = false

-- Which operations on which files fail, by the files' keys.
pub record Faults : Type 0 where
  pub unreadable : Bytes → Bool
  pub restoring : Bytes → Fault

pub data Restored : Type 0 where
  restored : Restored
  rejected : PairError → Restored
  conflict : Restored
  partly_failed : Restored

module _ (ps : Paths) where
  unfoldable pub snapshot_file : Bytes → Disk → FileSnapshot
  snapshot_file path d = image_of (ps.cleaned path) (lookup (ps.key path) d)

  -- Whether `writeFileLocked` succeeds, and the disk behind it.
  unfoldable pub write_file : Fault → Bytes → Bytes → Perm → Disk → Bool × Disk
  write_file fault path content perm d =
      let k = ps.key path in
      after_fault fault d
        (insert k (record { content = content; perm = effective_perm perm (lookup k d) }) d)

  abbrev remove_present : Fault → Bytes → Option File → Disk → Bool × Disk
  remove_present fault k none d = (true, d)
  remove_present fault k (some _) d = after_fault fault d (delete k d)

  unfoldable pub restore_file : Fault → FileSnapshot → Disk → Bool × Disk
  restore_file fault s d =
      if s.existed
      then write_file fault s.path s.content s.perm d
      else remove_present fault (ps.key s.path) (lookup (ps.key s.path) d) d

  -- `restoreFileSnapshotsLocked`, last file first; the faults are given by the files' keys.
  unfoldable pub restore_files : (Bytes → Fault) → List FileSnapshot → Disk → Bool × Disk
  restore_files fault [] d = (true, d)
  restore_files fault (s ∷ ss) d =
      let later = restore_files fault ss d in
      let this = restore_file (fault (ps.key s.path)) s later.1 in (later.0 && this.0, this.1)

  -- The loop of `prepareSnapshotPairs`, with the keys seen.
  unfoldable pub pair_up : List Bytes → List FileSnapshot → List FileSnapshot → Pairs
  pair_up seen [] [] = pairs []
  pair_up seen [] (_ ∷ _) = mismatch different_counts
  pair_up seen (_ ∷ _) [] = mismatch different_counts
  pair_up seen (b ∷ bs) (e ∷ es) =
      let rest = pair_up (ps.key b.path ∷ seen) bs es in
      if not (bytes_eq (ps.key b.path) (ps.key e.path))
      then mismatch different_paths
      else if elem (ps.key b.path) seen
      then mismatch duplicate_path
      else with_pair (record { before = b; expected = e }) rest

  abbrev pub key_below : Pair → Pair → Bool
  key_below a b = bytes_less (ps.key a.before.path) (ps.key b.before.path)

  abbrev pub sort_pairs : Pairs → Pairs
  sort_pairs (pairs l) = pairs (sort_by key_below l)
  sort_pairs (mismatch e) = mismatch e

  unfoldable pub prepare_snapshot_pairs : List FileSnapshot → List FileSnapshot → Pairs
  prepare_snapshot_pairs before expected =
      if not (length before == length expected)
      then mismatch different_counts
      else sort_pairs (pair_up [] before expected)

  unfoldable pub verdict_of : (Bytes → Bool) → Disk → Pair → Verdict
  verdict_of unreadable d p =
      let current = snapshot_file p.before.path d in
      if unreadable (ps.key p.before.path)
      then conflicting
      else if same_file_snapshot current p.before
      then untouched
      else if not (same_file_snapshot current p.expected)
      then conflicting
      else restorable

  abbrev pub any_conflict : (Bytes → Bool) → Disk → List Pair → Bool
  any_conflict unreadable d [] = false
  any_conflict unreadable d (p ∷ l) =
      let rest = any_conflict unreadable d l in is_conflicting (verdict_of unreadable d p) || rest

  -- The images to restore.
  abbrev pub to_restore : (Bytes → Bool) → Disk → List Pair → List FileSnapshot
  to_restore unreadable d [] = []
  to_restore unreadable d (p ∷ l) =
      let rest = to_restore unreadable d l in
      if is_restorable (verdict_of unreadable d p) then p.before ∷ rest else rest

  abbrev after_restoring : Bool × Disk → Restored × Disk
  after_restoring (ok, d) = (if ok then restored else partly_failed, d)

  abbrev pub restore_pairs : Faults → Pairs → Disk → Restored × Disk
  restore_pairs f (mismatch e) d = (rejected e, d)
  restore_pairs f (pairs l) d =
      if any_conflict f.unreadable d l
      then (conflict, d)
      else after_restoring (restore_files f.restoring (to_restore f.unreadable d l) d)

  unfoldable pub restore_file_snapshots_cas :
      Faults → List FileSnapshot → List FileSnapshot → Disk → Restored × Disk
  restore_file_snapshots_cas f before expected d =
      restore_pairs f (prepare_snapshot_pairs before expected) d
