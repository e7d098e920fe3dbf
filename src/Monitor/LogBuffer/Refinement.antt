-- ===== src/Monitor/LogBuffer/Refinement.antt =====
-- The ring buffer against its specification: the last bytes of all that was written.
use mathlib.Core.List.{append-nil, append_assoc}
use proxyfleet.Base.{
  ℕ, ◌-◌, ◌≤◌, ◌<◌, ◌≡◌, inl, inr, true, false, leb, ◌==◌, List, [], ◌∷◌, ◌++◌, Bytes, length, take,
  drop, replicate, suffix, drop-nil, take-append-drop, is_nil, if_cases, zero, suc, ◌||◌, ◌⊎◌,
  drop_all, length-append, length-drop, suffix-append, pos, refl, sym, ap, ◌∙◌, arith,
}
use proxyfleet.Monitor.LogBuffer.{LogBuffer, new_log_buffer, copy_at, write, content, clear}
use proxyfleet.Monitor.LogBuffer.Pieces.{
  IsValid, no_room, full, growing, shape, content-full, content-part, copy_at-fits,
}
use proxyfleet.Monitor.LogBuffer.Parts.{
  Written, Part, suffix_short, now_full, write-full, write-growing,
}

content-empty : (lb : LogBuffer) → lb.used ≡ 0 → content lb ≡ []
unfolding content
content-empty lb h = ground arith

-- What is shown fits.
content-length : (lb : LogBuffer) → IsValid lb → length (content lb) ≤ lb.size
content-length lb v = elim (shape lb v) [
  | no_room z ↦
      let none_used : lb.used ≡ 0 = omega (arith, v.filled, z) in
      omega (arith, ap length (content-empty lb none_used))
  | full a b c n u ↦
      omega (arith, ap length (content-full lb a b c n u), length-append b a, c.whole)
  | growing a b c n u ↦ omega (arith, ap length (content-part lb a b c n u), c.front, n)
]

-- A write that changes nothing.
write-nothing :
    (p : Bytes) (lb : LogBuffer) → IsValid lb → (lb.size ≡ 0) ⊎ (p ≡ []) → Written p lb lb
write-nothing p lb v (inl z) = record {
  valid = v;
  size = refl;
  shown =
      content-empty lb (omega (arith, v.filled, z))
      ∙ sym (drop_all _ (content lb ++ p) (omega (arith, z)));
}
write-nothing p lb v (inr e) = record {
  valid = v;
  size = refl;
  shown =
      sym (suffix_short lb.size (content lb) (content-length lb v))
      ∙ ap (suffix lb.size) (sym (append-nil (content lb)) ∙ ap (◌++◌ (content lb)) (sym e));
}

-- A write of a whole buffer or more keeps its own last bytes.
write-whole :
    (p : Bytes) (lb : LogBuffer)
    → IsValid lb
    → 0 < lb.size
    → lb.size ≤ length p
    → Written p lb (record lb {
      buf = copy_at 0 (drop (length p - lb.size) p) lb.buf;
      next = 0;
      used = lb.size;
    })
write-whole p lb v room h =
    let q = drop (length p - lb.size) p in
    let q_length : length q ≡ lb.size = omega (arith, length-drop (length p - lb.size) p) in
    let q_bytes : copy_at 0 q lb.buf ≡ q =
      ap (copy_at 0 q) (sym (append-nil lb.buf))
      ∙ copy_at-fits 0 q [] lb.buf [] refl (omega (arith, q_length, v.sized))
      ∙ append-nil q in
    now_full p (content lb ++ take (length p - lb.size) p) [] q lb _
      (record { bytes = q_bytes; front = refl; whole = omega (arith, q_length) }) refl room refl
      (ap (◌++◌ (content lb)) (sym (take-append-drop (length p - lb.size) p))
        ∙ simp (append_assoc, append-nil))

write_short : (p : Bytes) (lb lb' : LogBuffer) → IsValid lb → Part p lb lb' → Written p lb lb'
write_short p lb lb' v w = elim (shape lb v) [
  | no_room z ↦ absurd (omega (arith, z, w.short))
  | full a b c n u ↦ write-full p a b lb lb' w c (content-full lb a b c n u) u
  | growing a b c n u ↦ write-growing p a b lb lb' w c (content-part lb a b c n u) u
]

nothing_to_do :
    (p : Bytes) (lb : LogBuffer) → (lb.size == 0 || is_nil p) ≡ true → (lb.size ≡ 0) ⊎ (p ≡ [])
nothing_to_do [] lb h = inr refl
nothing_to_do (x ∷ p) lb h = inl (ground arith)

something_to_do :
    (p : Bytes) (lb : LogBuffer)
    → (lb.size == 0 || is_nil p) ≡ false
    → (0 < lb.size) × (0 < length p)
something_to_do [] lb h = absurd (ground arith)
something_to_do (x ∷ p) lb h = (ground arith, omega arith)

pub write-Written : (p : Bytes) (lb : LogBuffer) → IsValid lb → Written p lb (write p lb).1
unfolding write
write-Written p lb v =
    if_cases (Written p lb) (lb.size == 0 || is_nil p)
      (λ nothing. write-nothing p lb v (nothing_to_do p lb nothing))
      (λ more.
        let (room, bytes) = something_to_do p lb more in
        if_cases (Written p lb) (leb lb.size (length p))
          (λ h. write-whole p lb v room (ground arith))
          (λ h. write_short p lb _ v (record {
            short = ground arith;
            some_bytes = bytes;
            bytes = refl;
            next = refl;
            used = refl;
            size = refl;
          })))

-- What the server does with the buffer.
pub data Op : Type 0 where
  writes : Bytes → Op
  clears : Op

unfoldable pub run : List Op → LogBuffer → LogBuffer
run [] lb = lb
run (writes p ∷ ops) lb = run ops (write p lb).1
run (clears ∷ ops) lb = run ops (clear lb).1

-- All that has been written since the buffer was last cleared, to `s` if it was not.
abbrev pub since : List Op → Bytes → Bytes
since [] s = s
since (writes p ∷ ops) s = since ops (s ++ p)
since (clears ∷ ops) s = since ops []

length-replicate : (n a : ℕ) → length (replicate n a) ≡ n
length-replicate zero a = refl
length-replicate (suc n) a = ap suc (length-replicate n a)

clear-IsValid : (lb : LogBuffer) → IsValid lb → IsValid (clear lb).1
unfolding clear
clear-IsValid lb v = elim v.within [
  | inl room ↦ record {
    sized = length-replicate (length lb.buf) 0 ∙ v.sized;
    within = inl (omega (arith, room));
    filled = inr (refl, omega (arith, room));
  }
  | inr z ↦ record {
    sized = length-replicate (length lb.buf) 0 ∙ v.sized;
    within = inr z;
    filled = inl (sym z);
  }
]

clear_size : (lb : LogBuffer) → (clear lb).1.size ≡ lb.size
unfolding clear
clear_size lb = refl

content-clear : (lb : LogBuffer) → content (clear lb).1 ≡ []
unfolding clear
content-clear lb = content-empty (clear lb).1 refl

run-content :
    (ops : List Op) (n : ℕ) (s : Bytes) (lb : LogBuffer)
    → IsValid lb
    → lb.size ≡ n
    → content lb ≡ suffix n s
    → content (run ops lb) ≡ suffix n (since ops s)
unfolding run
run-content [] n s lb v z e = e
run-content (writes p ∷ ops) n s lb v z e =
    let w = write-Written p lb v in
    run-content ops n (s ++ p) (write p lb).1 w.valid (w.size ∙ z) (
      w.shown
      ∙ ap (λ k. suffix k (content lb ++ p)) z
      ∙ ap (λ r. suffix n (r ++ p)) e
      ∙ suffix-append n s p)
run-content (clears ∷ ops) n s lb v z e =
    run-content ops n [] (clear lb).1 (clear-IsValid lb v) (clear_size lb ∙ z)
      (content-clear lb ∙ sym (drop-nil (0 - n)))

new_log_buffer-IsValid : (n : ℕ) → IsValid (new_log_buffer (pos n))
unfolding new_log_buffer
new_log_buffer-IsValid zero = record { sized = refl; within = inr refl; filled = inl refl }
new_log_buffer-IsValid (suc n) = record {
  sized = length-replicate (suc n) 0;
  within = inl (omega arith);
  filled = inr (refl, omega arith);
}

new_log_buffer_empty : (n : ℕ) → content (new_log_buffer (pos n)) ≡ []
unfolding new_log_buffer
new_log_buffer_empty n = content-empty (new_log_buffer (pos n)) refl

new_log_buffer_size : (n : ℕ) → (new_log_buffer (pos n)).size ≡ n
unfolding new_log_buffer
new_log_buffer_size n = refl

-- The ring buffer shows the end of the log: after any sequence of writes, of whatever lengths, and
-- clears on a new buffer of `n` bytes, its content is exactly the last `n` bytes of all that was
-- written since the last clear, in order, and all of it while it is no longer than `n`.
pub run-suffix :
    (n : ℕ) (ops : List Op) → content (run ops (new_log_buffer (pos n))) ≡ suffix n (since ops [])
run-suffix n ops =
    run-content ops n [] (new_log_buffer (pos n)) (new_log_buffer-IsValid n) (new_log_buffer_size n)
      (new_log_buffer_empty n ∙ sym (drop-nil (0 - n)))
