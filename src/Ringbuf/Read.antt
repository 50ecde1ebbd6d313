-- ===== src/Ringbuf/Read.antt =====
-- The reader's side: am_ringbuf_get_read_ptr and am_ringbuf_seek.
use amast.Common.{
  ℕ, ◌+◌, ◌-◌, ◌≤◌, ◌<◌, ◌≡◌, ◌⊎◌, arith, [], ◌++◌, length-slice, ok, Returns, slice, take, drop,
  drop-slice, drop-append_le, take-slice, slice-le, some, none, append_assoc, mod-at-most, leb, ltb,
  ◌&&◌, if◌then◌else◌, ◌==◌,
}
use amast.Ringbuf.{Ringbuf, Grant, get_read_ptr, seek, contents}
use amast.Ringbuf.Valid.{IsValid, read_run, free_run}

-- What am_ringbuf_get_read_ptr gives: the contents stay; NULL stands for no contents, and any
-- other pointer is the read offset, with the whole first run of the contents behind it.
pub record ReadGrant (rb : Ringbuf) (g : Grant) : Type 0 where
  pub valid : IsValid g.state
  pub same : contents g.state ≡ contents rb
  pub writer : free_run rb ≤ free_run g.state
  pub run :
      ((g.ptr ≡ none) × (g.size ≡ 0) × (contents rb ≡ []))
      ⊎ ((g.ptr ≡ some g.state.read_offset) × (0 < g.size) × (g.size ≡ read_run g.state))

pub get_read_ptr_grants : (rb : Ringbuf) → IsValid rb → Returns (ReadGrant rb) (get_read_ptr rb)
unfolding get_read_ptr
get_read_ptr_grants rb v = ground arith

-- The first `k` bytes of the contents stand at the read offset, if they are in the first run.
pub take-read_run :
    (rb : Ringbuf) (k : ℕ)
    → IsValid rb
    → k ≤ read_run rb
    → take k (contents rb) ≡ slice rb.buf rb.read_offset k
take-read_run rb k v h = ground (
  arith,
  slice-le rb.buf rb.read_offset k (rb.write_offset - rb.read_offset),
  slice-le rb.buf rb.read_offset k (rb.buf_size - rb.read_offset - rb.read_skip),
  take-slice rb.buf rb.read_offset k
      (slice rb.buf (rb.read_offset + k) (rb.write_offset - rb.read_offset - k)),
  append_assoc (slice rb.buf rb.read_offset k)
      (slice rb.buf (rb.read_offset + k) (rb.buf_size - rb.read_offset - rb.read_skip - k))
      (slice rb.buf 0 rb.write_offset),
  take-slice rb.buf rb.read_offset k (
      slice rb.buf (rb.read_offset + k) (rb.buf_size - rb.read_offset - rb.read_skip - k)
      ++ slice rb.buf 0 rb.write_offset),
)

-- What am_ringbuf_seek by `k` leaves: the contents behind the first `k` bytes, the rest of the
-- reader's run, and no less room for the writer.
pub record Sought (rb : Ringbuf) (k : ℕ) (r : Ringbuf) : Type 0 where
  pub valid : IsValid r
  pub rest : contents r ≡ drop k (contents rb)
  pub reader : read_run rb ≤ read_run r + k
  pub writer : free_run rb ≤ free_run r

-- where the read offset goes
abbrev moved : Ringbuf → ℕ → Ringbuf
moved rb k = record rb {
  read_offset =
      if leb rb.read_offset rb.write_offset
      then rb.read_offset + k
      else (if ltb 0 k && rb.read_offset + k == rb.buf_size - rb.read_skip
          then 0
          else rb.read_offset + k);
}

seek-eq-moved : (rb : Ringbuf) (k : ℕ) → IsValid rb → k ≤ read_run rb → seek rb k ≡ ok (moved rb k)
unfolding seek
seek-eq-moved rb k v h =
    ground (arith, mod-at-most (rb.read_offset + k) (rb.buf_size - rb.read_skip))

contents-moved :
    (rb : Ringbuf) (k : ℕ)
    → IsValid rb
    → k ≤ read_run rb
    → contents (moved rb k) ≡ drop k (contents rb)
contents-moved rb k v h = ground (
  arith,
  drop-slice rb.buf rb.read_offset k (rb.write_offset - rb.read_offset - k),
  drop-slice rb.buf rb.read_offset k (rb.buf_size - rb.read_offset - rb.read_skip - k),
  drop-append_le (slice rb.buf rb.read_offset (rb.buf_size - rb.read_offset - rb.read_skip))
      (slice rb.buf 0 rb.write_offset) k,
  length-slice rb.buf rb.read_offset (rb.buf_size - rb.read_offset - rb.read_skip),
)

pub seek-drop :
    (rb : Ringbuf) (k : ℕ) → IsValid rb → k ≤ read_run rb → Returns (Sought rb k) (seek rb k)
seek-drop rb k v h = rw (seek-eq-moved rb k v h) (record {
  valid = ground arith;
  rest = contents-moved rb k v h;
  reader = ground arith;
  writer = ground arith;
})
