-- ===== src/Config/Files/Changes.antt =====
-- What a transaction's changes and their rollback do to each file.
use proxyfleet.Base.{
  ℕ, length, ◌≡◌, ◌≢◌, ◌⊎◌, inl, inr, Bool, true, false, refl, sym, ap, ◌∙◌, Option, none, some,
  List, [], ◌∷◌, map, Bytes, bytes_key, lookup, All, if_cases, subst, arith, bytes_discrete,
}
use proxyfleet.Config.Files.{
  private, File, Disk, FileSnapshot, Paths, Fault, image_of, snapshot_file, write_file,
  restore_file, restore_files,
}
use proxyfleet.Config.Files.Images.{
  content_of, wanted, restore_file_other, restore_file_done, restore_files_other, write_file_other,
}
use proxyfleet.Config.Files.Transaction.{
  Change, Trouble, rolled_back, add_front, go_on, snapshot_files, read_back, write_file_snapshot,
  write_made, make_change, merge_written, make_changes, conclude, transact_from,
}

image_wanted : (path : Bytes) (o : Option File) → wanted (image_of path o) ≡ content_of o
unfolding image_of
image_wanted path none = refl
image_wanted path (some f) = refl

image_path : (path : Bytes) (o : Option File) → (image_of path o).path ≡ path
unfolding image_of
image_path path none = refl
image_path path (some f) = refl

module _ (ps : Paths) where
  pub snapshot_wanted :
      (p : Bytes) (d : Disk) → wanted (snapshot_file ps p d) ≡ content_of (lookup (ps.key p) d)
  unfolding snapshot_file
  snapshot_wanted p d = image_wanted (ps.cleaned p) (lookup (ps.key p) d)

  pub snapshot_key : (p : Bytes) (d : Disk) → ps.key (snapshot_file ps p d).path ≡ ps.key p
  unfolding snapshot_file
  snapshot_key p d = ap ps.key (image_path (ps.cleaned p) (lookup (ps.key p) d)) ∙ ps.key_cleaned p

  -- The images of some files.
  abbrev pub images : List Bytes → Disk → List FileSnapshot
  images paths d = map (λ p. snapshot_file ps p d) paths

  abbrev pub IsImages : List Bytes → Disk → Option (List FileSnapshot) → Type 0
  IsImages paths d none = Unit
  IsImages paths d (some before) = before ≡ images paths d

  add_front-IsImages :
      (p : Bytes) (paths : List Bytes) (d : Disk) (o : Option (List FileSnapshot))
      → IsImages paths d o
      → IsImages (p ∷ paths) d (add_front (snapshot_file ps p d) o)
  add_front-IsImages p paths d none h = tt
  add_front-IsImages p paths d (some l) h = ap (◌∷◌ (snapshot_file ps p d)) h

  pub snapshot_files-IsImages :
      (unreadable : Bytes → Bool) (paths : List Bytes) (d : Disk)
      → IsImages paths d (snapshot_files ps unreadable paths d)
  unfolding snapshot_files
  snapshot_files-IsImages unreadable [] d = refl
  snapshot_files-IsImages unreadable (p ∷ paths) d =
      if_cases (IsImages (p ∷ paths) d) (unreadable (ps.key p)) (λ _. tt)
        (λ _. add_front-IsImages p paths d _ (snapshot_files-IsImages unreadable paths d))

  -- An image as of that disk, by its key.
  abbrev pub Of : Disk → FileSnapshot → Type 0
  Of d s = wanted s ≡ content_of (lookup (ps.key s.path) d)

  images-Of : (paths : List Bytes) (d : Disk) → All (Of d) (images paths d)
  images-Of [] d = tt
  images-Of (p ∷ paths) d = (
    snapshot_wanted p d ∙ ap (λ k. content_of (lookup k d)) (sym (snapshot_key p d)),
    images-Of paths d,
  )

  -- A key that is none of the images' is none of the paths'.
  pub images_apart :
      (paths : List Bytes) (d : Disk) (k : Bytes)
      → All (λ s. ps.key s.path ≢ k) (images paths d)
      → All (λ p. ps.key p ≢ k) paths
  images_apart [] d k h = tt
  images_apart (p ∷ paths) d k h = ((λ e. h.0 (snapshot_key p d ∙ e)), images_apart paths d k h.1)

  later_ok :
      (fault : Bytes → Fault) (s : FileSnapshot) (ss : List FileSnapshot) (now : Disk)
      → (restore_files ps fault (s ∷ ss) now).0 ≡ true
      → (restore_files ps fault ss now).0 ≡ true
  unfolding restore_files
  later_ok fault s ss now ok = ground (arith, ok)

  this_ok :
      (fault : Bytes → Fault) (s : FileSnapshot) (ss : List FileSnapshot) (now : Disk)
      → (restore_files ps fault (s ∷ ss) now).0 ≡ true
      → (restore_file ps (fault (ps.key s.path)) s (restore_files ps fault ss now).1).0 ≡ true
  unfolding restore_files
  this_ok fault s ss now ok = ground (arith, ok)

  -- What holds of a file before holds behind the restoration of the files.
  restore_files_back :
      (fault : Bytes → Fault) (ss : List FileSnapshot) (d now : Disk) (k : Bytes)
      → All (Of d) ss
      → All (λ s. ps.key s.path ≢ k) ss
        ⊎ ((restore_files ps fault ss now).0 ≡ true
            → content_of (lookup k (restore_files ps fault ss now).1) ≡ content_of (lookup k d))
  unfolding restore_files
  restore_files_back fault [] d now k h = inl tt
  restore_files_back fault (s ∷ ss) d now k h = elim (bytes_discrete (ps.key s.path) k) [
    | yes e ↦ inr (λ ok.
        subst
          (λ j.
            content_of (lookup j (restore_files ps fault (s ∷ ss) now).1) ≡ content_of (lookup j d))
          e
          (restore_file_done ps (fault (ps.key s.path)) s (restore_files ps fault ss now).1
              (this_ok fault s ss now ok)
            ∙ h.0))
    | no ne ↦ elim (restore_files_back fault ss d now k h.1) [
      | inl rest ↦ inl (ne, rest)
      | inr rest ↦ inr (λ ok.
          ap content_of (restore_file_other ps (fault (ps.key s.path)) s k _ ne)
          ∙ rest (later_ok fault s ss now ok))
    ]
  ]

  read_back_disk :
      (lost : Bool) (path : Bytes) (r : Bool × Disk) → (read_back ps lost path r).1 ≡ r.1
  read_back_disk lost path (true, d) = refl
  read_back_disk lost path (false, d) = refl

  write_made_other :
      (t : Trouble) (left : ℕ) (path : Bytes) (o : Option Bytes) (k : Bytes) (d : Disk)
      → ps.key path ≢ k
      → lookup k (write_made ps t left path o d).1 ≡ lookup k d
  unfolding write_file_snapshot
  write_made_other t left path none k d h = refl
  write_made_other t left path (some content) k d h =
      ap (lookup k) (read_back_disk _ path (write_file ps _ path content private d))
      ∙ write_file_other ps _ path content _ k d h

  merge_written_disk :
      (expected : List FileSnapshot) (r : Option FileSnapshot × Disk)
      → (merge_written ps expected r).1 ≡ r.1
  merge_written_disk expected (none, d) = refl
  merge_written_disk expected (some s, d) = refl

  go_on_other :
      (rest : List FileSnapshot → Disk → Option (List FileSnapshot) × Disk) (k : Bytes)
      (r : Option (List FileSnapshot) × Disk)
      → ((e : List FileSnapshot) (d : Disk) → lookup k (rest e d).1 ≡ lookup k d)
      → lookup k (go_on rest r).1 ≡ lookup k r.1
  go_on_other rest k (none, d) h = refl
  go_on_other rest k (some e, d) h = h e d

  pub make_changes_other :
      (t : Trouble) (cs : List Change) (k : Bytes) (expected : List FileSnapshot) (d : Disk)
      → All (λ c. ps.key c.path ≢ k) cs
      → lookup k (make_changes ps t cs expected d).1 ≡ lookup k d
  unfolding make_changes
  make_changes_other t [] k expected d h = refl
  make_changes_other t (c ∷ cs) k expected d h =
      go_on_other _ k (merge_written ps expected (make_change ps t (length cs) c d))
        (λ e d'. make_changes_other t cs k e d' h.1)
      ∙ ap (lookup k) (merge_written_disk expected (make_change ps t (length cs) c d))
      ∙ write_made_other t (length cs) c.path _ k d h.0

  -- Every file holds what it held.
  abbrev pub SameContents : Disk → Disk → Type 0
  SameContents d now = (k : Bytes) → content_of (lookup k now) ≡ content_of (lookup k d)

  conclude-Same :
      (t : Trouble) (before : List FileSnapshot) (d : Disk) (r : Option (List FileSnapshot) × Disk)
      → All (Of d) before
      → ((k : Bytes) → All (λ s. ps.key s.path ≢ k) before → lookup k r.1 ≡ lookup k d)
      → (conclude ps t before r).0 ≡ rolled_back
      → SameContents d (conclude ps t before r).1
  conclude-Same t before d (some e, now) h other done k = absurd (ground (arith, done))
  conclude-Same t before d (none, now) h other done k =
      elim (restore_files_back t.restoring before d now k h) [
        | inl apart ↦
            ap content_of (restore_files_other ps t.restoring before k now apart ∙ other k apart)
        | inr back ↦ back (ground (arith, done))
      ]

  -- What holds of the keys of all images holds of the keys of all changes.
  abbrev pub Covers : List Bytes → List Change → Type 0
  Covers paths cs = (k : Bytes) → All (λ p. ps.key p ≢ k) paths → All (λ c. ps.key c.path ≢ k) cs

  pub transact_from-Same :
      (t : Trouble) (paths : List Bytes) (cs : List Change) (o : Option (List FileSnapshot))
      (d : Disk)
      → Covers paths cs
      → IsImages paths d o
      → (transact_from ps t cs o d).0 ≡ rolled_back
      → SameContents d (transact_from ps t cs o d).1
  transact_from-Same t paths cs none d c h done = absurd (ground (arith, done))
  transact_from-Same t paths cs (some before) d c h done =
      conclude-Same t before d (make_changes ps t cs before d)
        (subst (All (Of d)) (sym h) (images-Of paths d))
        (λ k apart.
          make_changes_other t cs k before d
            (c k (images_apart paths d k (subst (All (λ s. ps.key s.path ≢ k)) h apart))))
        done
