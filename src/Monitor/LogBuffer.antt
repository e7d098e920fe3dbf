-- ===== src/Monitor/LogBuffer.antt =====
-- internal/monitor/logbuffer.go: the ring buffer behind the log view. `Write` and `Clear` return
-- what they count beside the new buffer.
mod Pieces
mod Parts
pub mod Refinement
use proxyfleet.Base.{
  ℕ, ◌+◌, ◌-◌, ◌%◌, ◌||◌, min, max, List, [], ◌++◌, Bytes, leb, ◌==◌, length, is_nil, take, drop,
  replicate, if◌then◌else◌, ℤ, pos, negsuc,
}

pub record LogBuffer : Type 0 where
  pub buf : Bytes
  pub size : ℕ
  pub next : ℕ
  pub used : ℕ

abbrev at_least_zero : ℤ → ℕ
at_least_zero (pos n) = n
at_least_zero (negsuc n) = 0

unfoldable pub new_log_buffer : ℤ → LogBuffer
new_log_buffer size = record {
  buf = replicate (at_least_zero size) 0;
  size = at_least_zero size;
  next = 0;
  used = 0;
}

-- `copy(buf[i:], p)`: as much of `p` as fits.
unfoldable pub copy_at : ℕ → Bytes → Bytes → Bytes
copy_at i p buf =
    let written = take (length buf - i) p in
    take i buf ++ (written ++ drop (i + length written) buf)

unfoldable pub write : Bytes → LogBuffer → ℕ × LogBuffer
unfolding copy_at
write p lb =
    let written = min (length lb.buf - lb.next) (length p) in
    let wrapped = copy_at 0 (drop written p) (copy_at lb.next p lb.buf) in
    let whole = record lb {
      buf = copy_at 0 (drop (length p - lb.size) p) lb.buf;
      next = 0;
      used = lb.size;
    } in
    let part = record lb {
      buf = wrapped;
      next = (lb.next + length p) % lb.size;
      used = min lb.size (lb.used + length p);
    } in
    (
      length p,
      if lb.size == 0 || is_nil p then lb else if leb lb.size (length p) then whole else part,
    )

-- The bytes from `start` to the end, then those from 0 on: as many as are used.
unfoldable pub read_from : ℕ → ℕ → ℕ → Bytes → Bytes
read_from start used size buf =
    let first = min used (size - start) in take first (drop start buf) ++ take (used - first) buf

-- The start is computed as `next - used + size`, which is never negative.
unfoldable pub content : LogBuffer → Bytes
content lb =
    if lb.used == 0
    then []
    else read_from ((lb.next + lb.size - lb.used) % lb.size) lb.used lb.size lb.buf

unfoldable pub clear : LogBuffer → ℕ × LogBuffer
clear lb = (lb.used, record lb { buf = replicate (length lb.buf) 0; next = 0; used = 0 })
