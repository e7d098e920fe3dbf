-- ===== src/Config/Files/Images.antt =====
-- What restoring an image does to the files, one by one.
use proxyfleet.Base.{
  ◌≡◌, ◌≢◌, Bool, true, refl, ap, ◌∙◌, Option, none, some, List, [], ◌∷◌, Bytes, bytes_key, lookup,
  All, lookup-insert_self, lookup-insert_ne, lookup-delete_self, lookup-delete_ne, if_cases,
  if◌then◌else◌, arith,
}
use proxyfleet.Config.Files.{
  Perm, File, Disk, FileSnapshot, Paths, Fault, fine, refused, unsynced, image_of,
  same_file_snapshot, write_file, remove_present, restore_file, restore_files,
}

-- What a file holds, if it is there; and what an image holds.
abbrev pub content_of : Option File → Option Bytes
content_of none = none
content_of (some f) = some f.content

abbrev pub wanted : FileSnapshot → Option Bytes
wanted s = if s.existed then some s.content else none

pub same_content :
    (path : Bytes) (o : Option File) (s : FileSnapshot)
    → same_file_snapshot (image_of path o) s ≡ true
    → content_of o ≡ wanted s
unfolding same_file_snapshot image_of
same_content path none s h = ground (arith, h)
same_content path (some f) s h = ground (arith, h)

pub same_path :
    (p q : Bytes) (o : Option File) (s : FileSnapshot)
    → same_file_snapshot (image_of p o) s ≡ same_file_snapshot (image_of q o) s
unfolding same_file_snapshot image_of
same_path p q none s = refl
same_path p q (some f) s = refl

module _ (ps : Paths) where
  pub write_file_other :
      (fault : Fault) (path content : Bytes) (perm : Perm) (k : Bytes) (d : Disk)
      → ps.key path ≢ k
      → lookup k (write_file ps fault path content perm d).1 ≡ lookup k d
  unfolding write_file
  write_file_other fine path content perm k d h = lookup-insert_ne (ps.key path) k _ d h
  write_file_other refused path content perm k d h = refl
  write_file_other unsynced path content perm k d h = lookup-insert_ne (ps.key path) k _ d h

  write_file_done :
      (fault : Fault) (path content : Bytes) (perm : Perm) (d : Disk)
      → (write_file ps fault path content perm d).0 ≡ true
      → content_of (lookup (ps.key path) (write_file ps fault path content perm d).1) ≡ some content
  unfolding write_file
  write_file_done fine path content perm d h = ap content_of (lookup-insert_self (ps.key path) _ d)
  write_file_done refused path content perm d h = absurd (ground (arith, h))
  write_file_done unsynced path content perm d h = absurd (ground (arith, h))

  remove_present_other :
      (fault : Fault) (j k : Bytes) (o : Option File) (d : Disk)
      → j ≢ k
      → lookup k (remove_present ps fault j o d).1 ≡ lookup k d
  remove_present_other fault j k none d h = refl
  remove_present_other fine j k (some f) d h = lookup-delete_ne j k d h
  remove_present_other refused j k (some f) d h = refl
  remove_present_other unsynced j k (some f) d h = lookup-delete_ne j k d h

  remove_present_done :
      (fault : Fault) (k : Bytes) (o : Option File) (d : Disk)
      → lookup k d ≡ o
      → (remove_present ps fault k o d).0 ≡ true
      → content_of (lookup k (remove_present ps fault k o d).1) ≡ none
  remove_present_done fault k none d e h = ap content_of e
  remove_present_done fine k (some f) d e h = ap content_of (lookup-delete_self k d)
  remove_present_done refused k (some f) d e h = absurd (ground (arith, h))
  remove_present_done unsynced k (some f) d e h = absurd (ground (arith, h))

  pub restore_file_other :
      (fault : Fault) (s : FileSnapshot) (k : Bytes) (d : Disk)
      → ps.key s.path ≢ k
      → lookup k (restore_file ps fault s d).1 ≡ lookup k d
  unfolding restore_file
  restore_file_other fault s k d h =
      if_cases (λ (r : Bool × Disk). lookup k r.1 ≡ lookup k d) s.existed
        (λ _. write_file_other fault s.path s.content s.perm k d h)
        (λ _. remove_present_other fault (ps.key s.path) k (lookup (ps.key s.path) d) d h)

  pub restore_file_done :
      (fault : Fault) (s : FileSnapshot) (d : Disk)
      → (restore_file ps fault s d).0 ≡ true
      → content_of (lookup (ps.key s.path) (restore_file ps fault s d).1) ≡ wanted s
  unfolding restore_file
  restore_file_done fault s d =
      if_cases
        (λ (r : Bool × Disk). r.0 ≡ true → content_of (lookup (ps.key s.path) r.1) ≡ wanted s)
        s.existed (λ e h. write_file_done fault s.path s.content s.perm d h ∙ ground (arith, e))
        (λ e h.
          remove_present_done fault (ps.key s.path) (lookup (ps.key s.path) d) d refl h
          ∙ ground (arith, e))

  pub restore_files_other :
      (fault : Bytes → Fault) (ss : List FileSnapshot) (k : Bytes) (d : Disk)
      → All (λ s. ps.key s.path ≢ k) ss
      → lookup k (restore_files ps fault ss d).1 ≡ lookup k d
  unfolding restore_files
  restore_files_other fault [] k d h = refl
  restore_files_other fault (s ∷ ss) k d h =
      restore_file_other (fault (ps.key s.path)) s k (restore_files ps fault ss d).1 h.0
      ∙ restore_files_other fault ss k d h.1
