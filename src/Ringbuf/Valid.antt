-- ===== src/Ringbuf/Valid.antt =====
-- The invariant of a ring buffer, and what the sizes count.
use amast.Common.{
  ℕ, ◌+◌, ◌-◌, ◌≤◌, ◌<◌, ◌≡◌, ◌⊎◌, arith, length, length-append, if◌then◌else◌, Returns, ◌==◌, leb,
  length-slice, ok, slice,
}
use amast.Ringbuf.{Ringbuf, gap, get_data_size, get_free_size, contents}

pub record IsValid (rb : Ringbuf) : Type 0 where
  pub write_in : rb.write_offset < rb.buf_size
  pub wrapped_in :
      (rb.read_offset ≤ rb.write_offset) ⊎ (rb.read_offset + rb.read_skip ≤ rb.buf_size)

-- how many bytes can be written in one run at the write offset
abbrev pub free_run : Ringbuf → ℕ
free_run rb =
    if leb rb.read_offset rb.write_offset
    then rb.buf_size - rb.write_offset - gap rb
    else rb.read_offset - rb.write_offset - 1

-- how many bytes can be read in one run at the read offset
abbrev pub read_run : Ringbuf → ℕ
read_run rb =
    if leb rb.read_offset rb.write_offset
    then rb.write_offset - rb.read_offset
    else rb.buf_size - rb.read_offset - rb.read_skip

-- On a valid ring am_ringbuf_get_data_size returns how many bytes the ring holds, the ones before
-- the skipped tail and the ones behind the wrap together.
pub get_data_size-contents :
    (rb : Ringbuf) → IsValid rb → get_data_size rb ≡ ok (length (contents rb))
unfolding get_data_size
get_data_size-contents rb v = ground (
  arith,
  length-slice rb.buf rb.read_offset (rb.write_offset - rb.read_offset),
  length-slice rb.buf rb.read_offset (rb.buf_size - rb.read_offset - rb.read_skip),
  length-slice rb.buf 0 rb.write_offset,
  length-append (slice rb.buf rb.read_offset (rb.buf_size - rb.read_offset - rb.read_skip))
      (slice rb.buf 0 rb.write_offset),
)

-- the bytes at the ring's end that the reader has yet to skip
abbrev pub skipped : Ringbuf → ℕ
skipped rb =
    if leb rb.read_offset rb.write_offset
    then 0
    else (if rb.read_offset == rb.buf_size - rb.read_skip then 0 else rb.read_skip)

-- On a valid ring am_ringbuf_get_free_size and am_ringbuf_get_data_size return, and add up to the
-- ring's size less one slot, and less the tail that the reader has yet to skip.
pub data-add-free_size :
    (rb : Ringbuf)
    → IsValid rb
    → Returns
        (λ d. Returns (λ f. f + d + skipped rb + 1 ≡ rb.buf_size) (get_free_size rb))
        (get_data_size rb)
unfolding get_free_size get_data_size
data-add-free_size rb v = ground arith
