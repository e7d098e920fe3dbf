-- ===== src/Config/Files/Restoring.antt =====
-- A restoration touches only what its transaction left, and then brings all of it back.
use proxyfleet.Base.{
  ◌≡◌, ◌≢◌, Bool, true, false, not, ◌==◌, refl, sym, ap, ◌∙◌, List, [], ◌∷◌, Bytes, bytes_key,
  lookup, All, All-map, if_cases, All-both, arith, length, sort_by,
}
use mathlib.Core.Bool.{true≢false}
use proxyfleet.Config.Files.{
  Disk, FileSnapshot, Paths, Fault, image_of, same_file_snapshot, snapshot_file, restore_file,
  restore_files, Pair, Pairs, pairs, mismatch, is_conflicting, is_restorable, Faults, Restored,
  restored, pair_up, key_below, sort_pairs, prepare_snapshot_pairs, verdict_of, any_conflict,
  to_restore, restore_pairs, restore_file_snapshots_cas,
}
use proxyfleet.Config.Files.Images.{
  content_of, wanted, same_content, same_path, restore_file_other, restore_file_done,
  restore_files_other,
}
use proxyfleet.Config.Files.Pairing.{
  All-sort_by_back, Apart, Apart-sort_by, IfPairs, IfPairs-map, sort_pairs-All, key_of, Zipped,
  pair_up-Zipped, Zipped-Apart, Zipped-expected, Zipped-before,
}

module _ (ps : Paths) where
  to_restore-All :
      (P : FileSnapshot → Type 0) (unreadable : Bytes → Bool) (d : Disk) (l : List Pair)
      → All (λ p. is_restorable (verdict_of ps unreadable d p) ≡ true → P p.before) l
      → All P (to_restore ps unreadable d l)
  to_restore-All P unreadable d [] h = tt
  to_restore-All P unreadable d (p ∷ l) h =
      let rest = to_restore-All P unreadable d l h.1 in
      if_cases (All P) (is_restorable (verdict_of ps unreadable d p)) (λ r. (h.0 r, rest))
        (λ _. rest)

  restorable_lem :
      (unreadable : Bytes → Bool) (d : Disk) (p : Pair)
      → is_restorable (verdict_of ps unreadable d p) ≡ true
      → same_file_snapshot (snapshot_file ps p.before.path d) p.expected ≡ true
  unfolding verdict_of
  restorable_lem unreadable d p h = ground (arith, h)

  untouched_lem :
      (unreadable : Bytes → Bool) (d : Disk) (p : Pair)
      → is_restorable (verdict_of ps unreadable d p) ≡ false
      → is_conflicting (verdict_of ps unreadable d p) ≡ false
      → same_file_snapshot (snapshot_file ps p.before.path d) p.before ≡ true
  unfolding verdict_of
  untouched_lem unreadable d p h c = ground (arith, h, c)

  -- A pair whose file no longer is as the transaction left it.
  abbrev Moved : Bytes → Disk → Pair → Type 0
  Moved k d p =
      key_of ps p ≡ k → same_file_snapshot (snapshot_file ps p.before.path d) p.expected ≡ false

  restore_pairs_other :
      (f : Faults) (l : Pairs) (k : Bytes) (d : Disk)
      → IfPairs (All (Moved k d)) l
      → lookup k (restore_pairs ps f l d).1 ≡ lookup k d
  restore_pairs_other f (mismatch e) k d h = refl
  restore_pairs_other f (pairs l) k d h =
      if_cases (λ (r : Restored × Disk). lookup k r.1 ≡ lookup k d)
        (any_conflict ps f.unreadable d l) (λ _. refl)
        (λ _. restore_files_other ps f.restoring (to_restore ps f.unreadable d l) k d (
          to_restore-All (λ s. ps.key s.path ≢ k) f.unreadable d l
            (All-map _ _ (λ p m r e. true≢false (sym (restorable_lem f.unreadable d p r) ∙ m e)) l
              h)))

  -- The same, of any path with the file's key.
  abbrev MovedAt : Bytes → Disk → Bytes → FileSnapshot → Type 0
  MovedAt k d j e = j ≡ k → same_file_snapshot (image_of [] (lookup j d)) e ≡ false

  Moved-pairs :
      (k : Bytes) (d : Disk) (before expected : List FileSnapshot) (l : List Pair)
      → All
          (λ e. ps.key e.path ≡ k → same_file_snapshot (snapshot_file ps e.path d) e ≡ false)
          expected
      → Zipped ps [] before expected l
      → All (Moved k d) l
  unfolding snapshot_file
  Moved-pairs k d before expected l h z =
      All-map _ _ (λ p m e. same_path _ [] _ p.expected ∙ m e) l
        (Zipped-expected ps (MovedAt k d) z
          (All-map _ _ (λ s m e. same_path [] _ _ s ∙ m e) expected h))

  -- Restoring never overwrites what somebody else has written: a file that is not, byte for byte and
  -- permission for permission, as the transaction left it, or that the transaction did not
  -- touch, keeps its content and its permissions, whichever operations of the system fail.
  pub restore_cas-Kept :
      (f : Faults) (before expected : List FileSnapshot) (k : Bytes) (d : Disk)
      → All
          (λ e. ps.key e.path ≡ k → same_file_snapshot (snapshot_file ps e.path d) e ≡ false)
          expected
      → lookup k (restore_file_snapshots_cas ps f before expected d).1 ≡ lookup k d
  unfolding restore_file_snapshots_cas prepare_snapshot_pairs
  restore_cas-Kept f before expected k d h =
      if_cases (λ (l : Pairs). lookup k (restore_pairs ps f l d).1 ≡ lookup k d)
        (not (length before == length expected)) (λ _. refl)
        (λ _. restore_pairs_other f (sort_pairs ps (pair_up ps [] before expected)) k d (
          sort_pairs-All ps (Moved k d) (pair_up ps [] before expected) (
            IfPairs-map (Zipped ps [] before expected) (All (Moved k d))
              (pair_up ps [] before expected) (λ l. Moved-pairs k d before expected l h)
              (pair_up-Zipped ps [] before expected))))

  -- The files of these pairs hold what they held before.
  abbrev pub AllBack : List Pair → Disk → Type 0
  AllBack l d = All (λ p. content_of (lookup (key_of ps p) d) ≡ wanted p.before) l

  restored_head :
      (fault : Bytes → Fault) (p : Pair) (l : List Pair) (ss : List FileSnapshot) (d : Disk)
      → All (λ q. key_of ps p ≢ key_of ps q) l
      → ((restore_files ps fault ss d).0 ≡ true → AllBack l (restore_files ps fault ss d).1)
      → (restore_files ps fault (p.before ∷ ss) d).0 ≡ true
      → AllBack (p ∷ l) (restore_files ps fault (p.before ∷ ss) d).1
  unfolding restore_files
  restored_head fault p l ss d a rest ok =
      let later = restore_files ps fault ss d in
      let first : later.0 ≡ true = ground (arith, ok) in
      let second : (restore_file ps (fault (key_of ps p)) p.before later.1).0 ≡ true =
        ground (arith, ok) in
      (
        restore_file_done ps (fault (key_of ps p)) p.before later.1 second,
        All-map _ _
            (λ q h.
              ap content_of
                (restore_file_other ps (fault (key_of ps p)) p.before (key_of ps q) later.1 h.0)
              ∙ h.1)
            l (All-both _ _ l a (rest first)),
      )

  kept_head :
      (f : Faults) (p : Pair) (l : List Pair) (d : Disk)
      → All (λ q. key_of ps p ≢ key_of ps q) l
      → same_file_snapshot (snapshot_file ps p.before.path d) p.before ≡ true
      → content_of
          (lookup (key_of ps p) (restore_files ps f.restoring (to_restore ps f.unreadable d l) d).1)
        ≡ wanted p.before
  unfolding snapshot_file
  kept_head f p l d a same =
      ap content_of (
        restore_files_other ps f.restoring (to_restore ps f.unreadable d l) (key_of ps p) d (
          to_restore-All (λ s. ps.key s.path ≢ key_of ps p) f.unreadable d l
            (All-map _ _ (λ q h _ e. h (sym e)) l a)))
      ∙ same_content _ (lookup (key_of ps p) d) p.before same

  all_restored :
      (f : Faults) (l : List Pair) (d : Disk)
      → Apart (key_of ps) l
      → any_conflict ps f.unreadable d l ≡ false
      → (restore_files ps f.restoring (to_restore ps f.unreadable d l) d).0 ≡ true
      → AllBack l (restore_files ps f.restoring (to_restore ps f.unreadable d l) d).1
  all_restored f [] d a c = λ ok. tt
  all_restored f (p ∷ l) d a c =
      let rest = all_restored f l d a.1 (ground (arith, c)) in
      if_cases
        (λ (ss : List FileSnapshot).
          (restore_files ps f.restoring ss d).0 ≡ true
          → AllBack (p ∷ l) (restore_files ps f.restoring ss d).1)
        (is_restorable (verdict_of ps f.unreadable d p))
        (λ _ ok. restored_head f.restoring p l (to_restore ps f.unreadable d l) d a.0 rest ok)
        (λ r ok.
          (kept_head f p l d a.0 (untouched_lem f.unreadable d p r (ground (arith, c))), rest ok))

  restore_pairs_done :
      (f : Faults) (before expected : List FileSnapshot) (l : Pairs) (d : Disk)
      → IfPairs (Zipped ps [] before expected) l
      → (restore_pairs ps f (sort_pairs ps l) d).0 ≡ restored
      → All
          (λ s.
            content_of (lookup (ps.key s.path) (restore_pairs ps f (sort_pairs ps l) d).1)
            ≡ wanted s)
          before
  restore_pairs_done f before expected (mismatch e) d z = λ ok. absurd (ground (arith, ok))
  restore_pairs_done f before expected (pairs l) d z =
      let sorted = sort_by (key_below ps) l in
      if_cases
        (λ (r : Restored × Disk).
          r.0 ≡ restored → All (λ s. content_of (lookup (ps.key s.path) r.1) ≡ wanted s) before)
        (any_conflict ps f.unreadable d sorted) (λ _ ok. absurd (ground (arith, ok)))
        (λ c ok.
          Zipped-before ps
            (λ s.
              content_of (
                lookup (ps.key s.path)
                  (restore_files ps f.restoring (to_restore ps f.unreadable d sorted) d).1)
              ≡ wanted s)
            z
            (All-sort_by_back _ (key_below ps) l (
              all_restored f sorted d
                (Apart-sort_by (key_of ps) (key_below ps) l (Zipped-Apart ps z)) c
                (ground (arith, ok)))))

  -- A restoration that reports success has brought everything back: each file of the images before
  -- has the content it had then, or is gone if it was not there, also where the restoration
  -- found it so.
  pub restore_cas-Back :
      (f : Faults) (before expected : List FileSnapshot) (d : Disk)
      → (restore_file_snapshots_cas ps f before expected d).0 ≡ restored
      → All
          (λ s.
            content_of
              (lookup (ps.key s.path) (restore_file_snapshots_cas ps f before expected d).1)
            ≡ wanted s)
          before
  unfolding restore_file_snapshots_cas prepare_snapshot_pairs
  restore_cas-Back f before expected d =
      if_cases
        (λ (l : Pairs).
          (restore_pairs ps f l d).0 ≡ restored
          → All (λ s. content_of (lookup (ps.key s.path) (restore_pairs ps f l d).1) ≡ wanted s)
              before)
        (not (length before == length expected)) (λ _ ok. absurd (ground (arith, ok)))
        (λ _.
          restore_pairs_done f before expected (pair_up ps [] before expected) d
            (pair_up-Zipped ps [] before expected))
