-- ===== src/Monitor/LogBuffer/Parts.antt =====
-- A write of less than a whole buffer shows the last bytes of what was shown and what was written.
use mathlib.Core.List.{append-nil, append_assoc}
use native.Mathlib.Decide.{dec_lt}
use proxyfleet.Base.{
  ℕ, ◌+◌, ◌-◌, ◌%◌, ◌≤◌, ◌<◌, ◌≡◌, ◌⊎◌, inl, inr, min, [], ◌++◌, Bytes, length, drop, suffix,
  drop-append_left, length-append, append-parts, sym, subst, ap, ◌∙◌, arith,
}
use proxyfleet.Monitor.LogBuffer.{LogBuffer, copy_at, content}
use proxyfleet.Monitor.LogBuffer.Pieces.{
  IsValid, Cut, content-full, content-part, part-fits, part-wraps,
}

-- What a write must do: show the last bytes of what was shown and `p`.
pub record Written (p : Bytes) (lb lb' : LogBuffer) : Type 0 where
  pub valid : IsValid lb'
  pub size : lb'.size ≡ lb.size
  pub shown : content lb' ≡ suffix lb.size (content lb ++ p)

-- A write of less than a whole buffer.
pub record Part (p : Bytes) (lb lb' : LogBuffer) : Type 0 where
  pub short : length p < lb.size
  pub some_bytes : 0 < length p
  pub bytes :
      lb'.buf
      ≡ copy_at 0 (drop (min (length lb.buf - lb.next) (length p)) p) (copy_at lb.next p lb.buf)
  pub next : lb'.next ≡ (lb.next + length p) % lb.size
  pub used : lb'.used ≡ min lb.size (lb.used + length p)
  pub size : lb'.size ≡ lb.size

pub suffix_of : (n : ℕ) (xs ys : Bytes) → length ys ≡ n → suffix n (xs ++ ys) ≡ ys
suffix_of n xs ys h = drop-append_left _ xs ys (omega (arith, length-append xs ys))

pub suffix_short : (n : ℕ) (xs : Bytes) → length xs ≤ n → suffix n xs ≡ xs
suffix_short n xs h = let e : length xs - n ≡ 0 = omega arith in ap (λ k. drop k xs) e

-- A full buffer after a write of `p`, whose bytes are cut into `a` and `b`, when `pre ++ (b ++ a)`
-- is what was shown with `p` behind it.
pub now_full :
    (p pre a b : Bytes) (lb lb' : LogBuffer)
    → Cut lb' a b
    → lb'.size ≡ lb.size
    → lb'.next < lb'.size
    → lb'.used ≡ lb'.size
    → content lb ++ p ≡ pre ++ (b ++ a)
    → Written p lb lb'
now_full p pre a b lb lb' c s n u e = record {
  valid = record {
    sized = ap length c.bytes ∙ length-append a b ∙ c.whole;
    within = inl n;
    filled = inl u;
  };
  size = s;
  shown =
      content-full lb' a b c n u
      ∙ sym (suffix_of lb.size pre (b ++ a) (omega (arith, c.whole, s, length-append b a)))
      ∙ ap (suffix lb.size) (sym e);
}

-- The write stays within the buffer.
write-inside :
    (p a b c : Bytes) (lb lb' : LogBuffer)
    → Part p lb lb'
    → Cut lb a (b ++ c)
    → length p ≡ length b
    → 0 < length c
    → Cut lb' (a ++ p) c × (lb'.next < lb'.size) × (lb'.next ≡ lb.next + length p)
write-inside p a b c lb lb' w k e room =
    let total : length a + (length b + length c) ≡ lb.size =
      ap (◌+◌ (length a)) (sym (length-append b c)) ∙ k.whole in
    let next : (lb.next + length p) % lb.size ≡ lb.next + length p =
      grind (arith, k.front, total, e, room) in
    let here : lb'.next ≡ lb.next + length p = w.next ∙ next in
    (
      record {
        bytes =
            w.bytes
            ∙ ap
                (λ r.
                  copy_at 0 (drop (min (length r - lb.next) (length p)) p) (copy_at lb.next p r))
                k.bytes
            ∙ part-fits lb.next p a b c (sym k.front) e
            ∙ sym (append_assoc a p c);
        front = length-append a p ∙ omega (arith, here, k.front);
        whole = omega (arith, length-append a p, total, w.size, e);
      },
      omega (arith, here, w.size, total, k.front, e, room),
      here,
    )

-- The write ends at the end of the buffer.
write-reaches :
    (p a b : Bytes) (lb lb' : LogBuffer)
    → Part p lb lb'
    → Cut lb a b
    → length p ≡ length b
    → Cut lb' [] (a ++ p) × (lb'.next ≡ 0)
write-reaches p a b lb lb' w k e =
    let next : (lb.next + length p) % lb.size ≡ 0 = grind (arith, k.front, k.whole, e, w.short) in
    (
      record {
        bytes =
            w.bytes
            ∙ ap
                (λ r.
                  copy_at 0 (drop (min (length r - lb.next) (length p)) p) (copy_at lb.next p r))
                (k.bytes ∙ ap (◌++◌ a) (sym (append-nil b)))
            ∙ part-fits lb.next p a b [] (sym k.front) e
            ∙ ap (◌++◌ a) (append-nil p);
        front = sym (w.next ∙ next);
        whole = omega (arith, length-append a p, k.whole, w.size, e);
      },
      w.next ∙ next,
    )

-- The write goes on at the start of the buffer.
write-wraps :
    (p q a b c : Bytes) (lb lb' : LogBuffer)
    → Part (p ++ q) lb lb'
    → Cut lb (a ++ b) c
    → length q ≡ length a
    → length p ≡ length c
    → Cut lb' q (b ++ p) × (lb'.next < lb'.size)
write-wraps p q a b c lb lb' w k e f =
    let parts : length (p ++ q) ≡ length p + length q = length-append p q in
    let cut : length (a ++ b) ≡ length a + length b = length-append a b in
    let next : (lb.next + length (p ++ q)) % lb.size ≡ length q =
      grind (arith, k.front, k.whole, e, f, w.short, parts, cut) in
    (
      record {
        bytes =
            w.bytes
            ∙ ap
                (λ r.
                  copy_at 0 (drop (min (length r - lb.next) (length (p ++ q))) (p ++ q))
                    (copy_at lb.next (p ++ q) r))
                k.bytes
            ∙ part-wraps lb.next p q a b c (sym k.front ∙ cut) e f;
        front = sym (w.next ∙ next);
        whole = omega (arith, length-append b p, k.whole, w.size, e, f, cut);
      },
      omega (arith, w.next, next, w.size, w.short, parts, e, f),
    )

-- How the bytes written lie to the end of the buffer.
data Fit (p a b : Bytes) : Type 0 where
  inside : (c d : Bytes) → b ≡ c ++ d → length p ≡ length c → 0 < length d → Fit p a b
  reaches : length p ≡ length b → Fit p a b
  wraps :
      (q r c d : Bytes)
      → p ≡ q ++ r
      → a ≡ c ++ d
      → length r ≡ length c
      → length q ≡ length b
      → Fit p a b

compare_lengths : (n m : ℕ) → (n < m) ⊎ ((n ≡ m) ⊎ (m < n))
compare_lengths n m = elim (dec_lt n m) [
  | yes h ↦ inl h
  | no h ↦ elim (dec_lt m n) [ yes k ↦ inr (inr k) | no k ↦ inr (inl (omega arith)) ]
]

fit : (p a b : Bytes) → length p < length a + length b → Fit p a b
fit p a b h = elim (compare_lengths (length p) (length b)) [
  | inl less ↦
      let (c, d, e, l) = append-parts (length p) b (omega (arith, less)) in
      inside c d e (sym l) (omega (arith, ap length e ∙ length-append c d, less, l))
  | inr (inl same) ↦ reaches same
  | inr (inr more) ↦
      let (q, r, e, l) = append-parts (length b) p (omega (arith, more)) in
      let sum : length p ≡ length q + length r = ap length e ∙ length-append q r in
      let (c, d, e', l') = append-parts (length r) a (omega (arith, sum, l, h)) in
      wraps q r c d e e' (sym l') l
]

-- What is shown: `pre` is empty or the part behind `next`.
module _ (p a b pre : Bytes) (lb lb' : LogBuffer) (w : Part p lb lb') (k : Cut lb a b)
    (e : content lb ≡ pre ++ a) where
  write-reaches_end : length p ≡ length b → lb.size ≤ lb.used + length p → Written p lb lb'
  write-reaches_end l u =
      let (cut, start) = write-reaches p a b lb lb' w k l in
      now_full p pre [] (a ++ p) lb lb' cut w.size (omega (arith, start, w.size, w.short))
        (omega (arith, w.used, w.size, u)) (ap (λ r. r ++ p) e ∙ simp (append_assoc, append-nil))

  write-goes_on :
      (q r c d : Bytes)
      → p ≡ q ++ r
      → a ≡ c ++ d
      → length r ≡ length c
      → length q ≡ length b
      → lb.size ≤ lb.used + length p
      → Written p lb lb'
  write-goes_on q r c d p_parts a_parts l l' u =
      let (cut, within) =
        write-wraps q r c d b lb lb' (subst (λ x. Part x lb lb') p_parts w)
          (subst (λ x. Cut lb x b) a_parts k) l l' in
      now_full p (pre ++ c) r (d ++ q) lb lb' cut w.size within (omega (arith, w.used, w.size, u))
        (ap (λ r. r ++ p) e ∙ simp (p_parts, a_parts, append_assoc))

-- A write to a full buffer.
pub write-full :
    (p a b : Bytes) (lb lb' : LogBuffer)
    → Part p lb lb'
    → Cut lb a b
    → content lb ≡ b ++ a
    → lb.used ≡ lb.size
    → Written p lb lb'
write-full p a b lb lb' w k e u = elim (fit p a b (omega (arith, w.short, k.whole))) [
  | inside c d b_parts l more ↦
      let (cut, within, _) = write-inside p a c d lb lb' w (subst (Cut lb a) b_parts k) l more in
      now_full p c (a ++ p) d lb lb' cut w.size within (omega (arith, w.used, w.size, u))
        (ap (λ r. r ++ p) e ∙ simp (b_parts, append_assoc))
  | reaches l ↦ write-reaches_end p a b b lb lb' w k e l (omega (arith, u))
  | wraps q r c d p_parts a_parts l l' ↦
      write-goes_on p a b b lb lb' w k e q r c d p_parts a_parts l l' (omega (arith, u))
]

-- A write to a buffer that has room yet.
pub write-growing :
    (p a b : Bytes) (lb lb' : LogBuffer)
    → Part p lb lb'
    → Cut lb a b
    → content lb ≡ a
    → lb.used ≡ lb.next
    → Written p lb lb'
write-growing p a b lb lb' w k e u = elim (fit p a b (omega (arith, w.short, k.whole))) [
  | inside c d b_parts l more ↦
      let (cut, within, next) = write-inside p a c d lb lb' w (subst (Cut lb a) b_parts k) l more in
      let used : lb'.used ≡ lb'.next = omega (arith, w.used, w.size, next, u, within) in
      record {
        valid = record {
          sized = ap length cut.bytes ∙ length-append (a ++ p) d ∙ cut.whole;
          within = inl within;
          filled = inr (used, within);
        };
        size = w.size;
        shown =
            content-part lb' (a ++ p) d cut within used
            ∙ sym (suffix_short lb.size (a ++ p) (omega (arith, cut.front, within, w.size)))
            ∙ ap (λ r. suffix lb.size (r ++ p)) (sym e);
      }
  | reaches l ↦ write-reaches_end p a b [] lb lb' w k e l (omega (arith, u, k.front, k.whole, l))
  | wraps q r c d p_parts a_parts l l' ↦
      write-goes_on p a b [] lb lb' w k e q r c d p_parts a_parts l l'
        (omega (arith, u, k.front, k.whole, l', ap length p_parts ∙ length-append q r))
]
