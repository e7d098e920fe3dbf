-- ===== src/Config/Files/Pairing.antt =====
-- Sorting keeps what holds of each item, and `prepareSnapshotPairs` pairs the images of each file.
use proxyfleet.Base.{
  ◌≡◌, ◌≢◌, Bool, true, false, not, sym, List, [], ◌∷◌, Bytes, bytes_key, bytes_eq, All, All-map,
  if_cases, subst, arith, sort_by, insert_by,
}
use proxyfleet.Config.Jobs.{elem}
use proxyfleet.Config.Files.{
  FileSnapshot, Paths, Pair, Pairs, pairs, mismatch, with_pair, pair_up, key_below, sort_pairs,
}

-- What holds of each item and of no order holds of the sorted list.
All-insert_by :
    {A : Type 0} (P : A → Type 0) (less : A → A → Bool) (a : A) (bs : List A)
    → P a
    → All P bs
    → All P (insert_by less a bs)
All-insert_by P less a [] p h = (p, tt)
All-insert_by P less a (b ∷ bs) p h =
    if_cases (All P) (less b a) (λ _. (h.0, All-insert_by P less a bs p h.1)) (λ _. (p, h))

All-insert_by_back :
    {A : Type 0} (P : A → Type 0) (less : A → A → Bool) (a : A) (bs : List A)
    → All P (insert_by less a bs)
    → P a × All P bs
All-insert_by_back P less a [] h = h
All-insert_by_back P less a (b ∷ bs) h =
    let back : All P (insert_by less a (b ∷ bs)) → P a × All P (b ∷ bs) =
      if_cases (λ (l : List _). All P l → P a × All P (b ∷ bs)) (less b a)
        (λ _ g. let r = All-insert_by_back P less a bs g.1 in (r.0, (g.0, r.1))) (λ _ g. g) in
    back h

pub All-sort_by :
    {A : Type 0} (P : A → Type 0) (less : A → A → Bool) (bs : List A)
    → All P bs
    → All P (sort_by less bs)
All-sort_by P less [] h = tt
All-sort_by P less (b ∷ bs) h =
    All-insert_by P less b (sort_by less bs) h.0 (All-sort_by P less bs h.1)

pub All-sort_by_back :
    {A : Type 0} (P : A → Type 0) (less : A → A → Bool) (bs : List A)
    → All P (sort_by less bs)
    → All P bs
All-sort_by_back P less [] h = tt
All-sort_by_back P less (b ∷ bs) h =
    let r = All-insert_by_back P less b (sort_by less bs) h in (r.0, All-sort_by_back P less bs r.1)

-- No two items have the same key.
abbrev pub Apart : {A : Type 0} → (A → Bytes) → List A → Type 0
Apart key [] = Unit
Apart key (a ∷ bs) = All (λ b. key a ≢ key b) bs × Apart key bs

Apart-insert_by :
    {A : Type 0} (key : A → Bytes) (less : A → A → Bool) (a : A) (bs : List A)
    → All (λ b. key a ≢ key b) bs
    → Apart key bs
    → Apart key (insert_by less a bs)
Apart-insert_by key less a [] h r = (tt, tt)
Apart-insert_by key less a (b ∷ bs) h r =
    if_cases (Apart key) (less b a)
      (λ _. (
        All-insert_by (λ c. key b ≢ key c) less a bs (λ e. h.0 (sym e)) r.0,
        Apart-insert_by key less a bs h.1 r.1,
      ))
      (λ _. (h, r))

pub Apart-sort_by :
    {A : Type 0} (key : A → Bytes) (less : A → A → Bool) (bs : List A)
    → Apart key bs
    → Apart key (sort_by less bs)
Apart-sort_by key less [] r = tt
Apart-sort_by key less (b ∷ bs) r =
    Apart-insert_by key less b (sort_by less bs) (All-sort_by (λ c. key b ≢ key c) less bs r.0)
      (Apart-sort_by key less bs r.1)

bytes_same : {a b : Bytes} → true ≡ bytes_eq a b → b ≡ a
bytes_same e = ground (arith, e)

abbrev pub IfPairs : (List Pair → Type 0) → Pairs → Type 0
IfPairs P (pairs l) = P l
IfPairs P (mismatch e) = Unit

pub IfPairs-map :
    (P Q : List Pair → Type 0) (l : Pairs)
    → ((m : List Pair) → P m → Q m)
    → IfPairs P l
    → IfPairs Q l
IfPairs-map P Q (pairs l) f h = f l h
IfPairs-map P Q (mismatch e) f h = tt

pub sort_pairs-All :
    (ps : Paths) (P : Pair → Type 0) (l : Pairs)
    → IfPairs (All P) l
    → IfPairs (All P) (sort_pairs ps l)
sort_pairs-All ps P (pairs l) h = All-sort_by P (key_below ps) l h
sort_pairs-All ps P (mismatch e) h = tt

module _ (ps : Paths) where
  abbrev pub key_of : Pair → Bytes
  key_of p = ps.key p.before.path

  -- The pairs of two lists of images.
  pub data Zipped : List Bytes → List FileSnapshot → List FileSnapshot → List Pair → Type 0 where
    none_left : {seen : List Bytes} → Zipped seen [] [] []
    one_more :
        {seen : List Bytes} {b e : FileSnapshot} {bs es : List FileSnapshot} {l : List Pair}
        → bytes_eq (ps.key b.path) (ps.key e.path) ≡ true
        → elem (ps.key b.path) seen ≡ false
        → Zipped (ps.key b.path ∷ seen) bs es l
        → Zipped seen (b ∷ bs) (e ∷ es) (record { before = b; expected = e } ∷ l)

  with_pair-Zipped :
      (seen : List Bytes) (b e : FileSnapshot) (bs es : List FileSnapshot) (rest : Pairs)
      → bytes_eq (ps.key b.path) (ps.key e.path) ≡ true
      → elem (ps.key b.path) seen ≡ false
      → IfPairs (Zipped (ps.key b.path ∷ seen) bs es) rest
      → IfPairs
          (Zipped seen (b ∷ bs) (e ∷ es))
          (with_pair (record { before = b; expected = e }) rest)
  with_pair-Zipped seen b e bs es (pairs l) same new z = one_more same new z
  with_pair-Zipped seen b e bs es (mismatch x) same new z = tt

  pub pair_up-Zipped :
      (seen : List Bytes) (bs es : List FileSnapshot)
      → IfPairs (Zipped seen bs es) (pair_up ps seen bs es)
  unfolding pair_up
  pair_up-Zipped seen [] [] = none_left
  pair_up-Zipped seen [] (e ∷ es) = tt
  pair_up-Zipped seen (b ∷ bs) [] = tt
  pair_up-Zipped seen (b ∷ bs) (e ∷ es) =
      let P : Pairs → Type 0 = IfPairs (Zipped seen (b ∷ bs) (e ∷ es)) in
      if_cases P (not (bytes_eq (ps.key b.path) (ps.key e.path))) (λ _. tt)
        (λ same.
          if_cases P (elem (ps.key b.path) seen) (λ _. tt)
            (λ new.
              with_pair-Zipped seen b e bs es _ (ground (arith, same)) new
                (pair_up-Zipped (ps.key b.path ∷ seen) bs es)))

  Zipped-fresh :
      {seen : List Bytes} {bs es : List FileSnapshot} {l : List Pair}
      → Zipped seen bs es l
      → All (λ p. elem (key_of p) seen ≡ false) l
  Zipped-fresh none_left = tt
  Zipped-fresh (one_more same new z) =
      (new, All-map _ _ (λ p h. ground (arith, h)) _ (Zipped-fresh z))

  pub Zipped-Apart :
      {seen : List Bytes} {bs es : List FileSnapshot} {l : List Pair}
      → Zipped seen bs es l
      → Apart key_of l
  Zipped-Apart none_left = tt
  Zipped-Apart (one_more same new z) =
      (All-map _ _ (λ p h e. ground (arith, h, e)) _ (Zipped-fresh z), Zipped-Apart z)

  same_key :
      (P : Bytes → FileSnapshot → Type 0) (j k : Bytes) {e : FileSnapshot}
      → bytes_eq j k ≡ true
      → P k e
      → P j e
  same_key P j k {e} same h = subst (λ i. P i e) (bytes_same (sym same)) h

  -- What holds of the expected images, with the keys of the images before.
  pub Zipped-expected :
      (P : Bytes → FileSnapshot → Type 0) {seen : List Bytes} {bs es : List FileSnapshot}
      {l : List Pair}
      → Zipped seen bs es l
      → All (λ e. P (ps.key e.path) e) es
      → All (λ p. P (key_of p) p.expected) l
  Zipped-expected P none_left h = tt
  Zipped-expected P (one_more same new z) h = (same_key P _ _ same h.0, Zipped-expected P z h.1)

  pub Zipped-before :
      (P : FileSnapshot → Type 0) {seen : List Bytes} {bs es : List FileSnapshot} {l : List Pair}
      → Zipped seen bs es l
      → All (λ p. P p.before) l
      → All P bs
  Zipped-before P none_left h = tt
  Zipped-before P (one_more same new z) h = (h.0, Zipped-before P z h.1)
