-- ===== src/Monitor/LogBuffer/Pieces.antt =====
-- The ring buffer cut at `next`: what is shown of it, and what a write does to the pieces.
use proxyfleet.Base.{
  ℕ, ◌+◌, ◌-◌, ◌%◌, ◌≤◌, ◌<◌, ◌≡◌, ◌⊎◌, inl, inr, min, [], ◌++◌, Bytes, length, take, drop,
  take-append_left, drop-append_left, take_all, drop_all, length-append, append-parts, drop-drop,
  refl, sym, ap, ◌∙◌, arith,
}
use mathlib.Core.List.{append-nil, append_assoc}
use proxyfleet.Monitor.LogBuffer.{LogBuffer, copy_at, read_from, content}

-- What holds of every buffer: the bytes fill it from 0 up to `next`, and once it is full `next` is where the oldest byte stands.
pub record IsValid (lb : LogBuffer) : Type 0 where
  pub sized : length lb.buf ≡ lb.size
  pub within : (lb.next < lb.size) ⊎ (lb.size ≡ 0)
  pub filled : (lb.used ≡ lb.size) ⊎ ((lb.used ≡ lb.next) × (lb.next < lb.size))

-- A buffer cut at `next`.
pub record Cut (lb : LogBuffer) (a b : Bytes) : Type 0 where
  pub bytes : lb.buf ≡ a ++ b
  pub front : length a ≡ lb.next
  pub whole : length a + length b ≡ lb.size

read_from-append :
    (used size : ℕ) (a b : Bytes)
    → used ≡ length a + length b
    → size ≡ used
    → read_from (length a) used size (a ++ b) ≡ b ++ a
unfolding read_from
read_from-append used size a b h e =
    let first : min used (size - length a) ≡ length b = omega arith in
    let rest : used - length b ≡ length a = omega arith in
    rw
      (
        first,
        rest,
        drop-append_left (length a) a b refl,
        take_all (length b) b (omega arith),
        take-append_left (length a) a b refl,
      )
      refl

read_from-front :
    (used size : ℕ) (a b : Bytes)
    → used ≡ length a
    → used ≤ size
    → read_from 0 used size (a ++ b) ≡ a
unfolding read_from
read_from-front used size a b h e =
    let first : min used (size - 0) ≡ length a = omega arith in
    let rest : used - length a ≡ 0 = omega arith in
    rw (first, rest, take-append_left (length a) a b refl) (append-nil a)

pub content-full :
    (lb : LogBuffer) (a b : Bytes)
    → Cut lb a b
    → lb.next < lb.size
    → lb.used ≡ lb.size
    → content lb ≡ b ++ a
unfolding content
content-full lb a b c n full =
    let start : (lb.next + lb.size - lb.used) % lb.size ≡ length a = grind arith in
    ground (arith, start, read_from-append lb.used lb.size a b)

pub content-part :
    (lb : LogBuffer) (a b : Bytes)
    → Cut lb a b
    → lb.next < lb.size
    → lb.used ≡ lb.next
    → content lb ≡ a
unfolding content
content-part lb a b c h n =
    let start : (lb.next + lb.size - lb.used) % lb.size ≡ 0 = grind arith in
    ground (arith, start, read_from-front lb.used lb.size a b)

-- What `copy` writes: all of `p` if it fits, else what fits.
pub copy_at-fits :
    (i : ℕ) (p a b c : Bytes)
    → i ≡ length a
    → length p ≡ length b
    → copy_at i p (a ++ (b ++ c)) ≡ a ++ (p ++ c)
unfolding copy_at
copy_at-fits i p a b c h e =
    let whole : length (a ++ (b ++ c)) ≡ length a + (length b + length c) =
      length-append a (b ++ c) ∙ ap (◌+◌ (length a)) (length-append b c) in
    let p_fits : take (length (a ++ (b ++ c)) - i) p ≡ p = take_all _ p (omega (arith, whole)) in
    rw (p_fits, h, take-append_left (length a) a (b ++ c) refl)
      (ap (λ r. a ++ (p ++ r))
        (sym (drop-drop (length p) (length a) (a ++ (b ++ c)))
          ∙ ap (drop (length p)) (drop-append_left (length a) a (b ++ c) refl)
          ∙ drop-append_left (length p) b c (sym e)))

copy_at-cut :
    (i : ℕ) (p q a b : Bytes)
    → i ≡ length a
    → length p ≡ length b
    → copy_at i (p ++ q) (a ++ b) ≡ a ++ p
unfolding copy_at
copy_at-cut i p q a b h e =
    let p_cut : take (length (a ++ b) - i) (p ++ q) ≡ p =
      take-append_left _ p q (omega (arith, length-append a b)) in
    let rest : drop (length a + length p) (a ++ b) ≡ [] =
      drop_all _ (a ++ b) (omega (arith, length-append a b)) in
    rw (p_cut, h, take-append_left (length a) a b refl, rest) (ap (◌++◌ a) (append-nil p))

copy_at-nil : (u : Bytes) → copy_at 0 [] u ≡ u
copy_at-nil u = copy_at-fits 0 [] [] [] u refl refl

-- A part that does not reach the end.
pub part-fits :
    (i : ℕ) (p a b c : Bytes)
    → i ≡ length a
    → length p ≡ length b
    → copy_at 0 (drop (min (length (a ++ (b ++ c)) - i) (length p)) p) (copy_at i p (a ++ (b ++ c)))
      ≡ a ++ (p ++ c)
part-fits i p a b c h e =
    let nothing : drop (min (length (a ++ (b ++ c)) - i) (length p)) p ≡ [] =
      drop_all _ p (omega (arith, length-append a (b ++ c), length-append b c)) in
    ap (λ r. copy_at 0 r (copy_at i p (a ++ (b ++ c)))) nothing
    ∙ copy_at-nil (copy_at i p (a ++ (b ++ c)))
    ∙ copy_at-fits i p a b c h e

pub part-wraps :
    (i : ℕ) (p q a b c : Bytes)
    → i ≡ length a + length b
    → length q ≡ length a
    → length p ≡ length c
    → copy_at 0
        (drop (min (length ((a ++ b) ++ c) - i) (length (p ++ q))) (p ++ q))
        (copy_at i (p ++ q) ((a ++ b) ++ c))
      ≡ q ++ (b ++ p)
part-wraps i p q a b c h e f =
    let rest : drop (min (length ((a ++ b) ++ c) - i) (length (p ++ q))) (p ++ q) ≡ q =
      drop-append_left _ p q
        (omega (arith, length-append (a ++ b) c, length-append a b, length-append p q)) in
    let first : copy_at i (p ++ q) ((a ++ b) ++ c) ≡ a ++ (b ++ p) =
      copy_at-cut i p q (a ++ b) c (h ∙ sym (length-append a b)) f ∙ append_assoc a b p in
    ap (λ r. copy_at 0 r (copy_at i (p ++ q) ((a ++ b) ++ c))) rest
    ∙ ap (copy_at 0 q) first
    ∙ copy_at-fits 0 q [] a (b ++ p) refl e

-- The bytes of a buffer around `next`, and what is shown of them.
pub data Shape (lb : LogBuffer) : Type 0 where
  no_room : lb.size ≡ 0 → Shape lb
  full : (a b : Bytes) → Cut lb a b → lb.next < lb.size → lb.used ≡ lb.size → Shape lb
  growing : (a b : Bytes) → Cut lb a b → lb.next < lb.size → lb.used ≡ lb.next → Shape lb

pub shape : (lb : LogBuffer) → IsValid lb → Shape lb
shape lb v = elim v.within [
  | inr none_left ↦ no_room none_left
  | inl room ↦
      let (a, b, e, l) = append-parts lb.next lb.buf (omega (arith, v.sized)) in
      let c : Cut lb a b = record {
        bytes = e;
        front = l;
        whole = sym (length-append a b) ∙ ap length (sym e) ∙ v.sized;
      } in
      elim v.filled [ inl whole ↦ full a b c room whole | inr (n, _) ↦ growing a b c room n ]
]
