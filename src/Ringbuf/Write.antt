-- ===== src/Ringbuf/Write.antt =====
-- The writer's side: am_ringbuf_get_write_ptr, a copy to the pointer, and am_ringbuf_flush.
use amast.Common.{
  ℕ, ◌+◌, ◌-◌, ◌≤◌, ◌<◌, ◌≡◌, ◌⊎◌, arith, List, ◌++◌, length, Returns, slice, copy,
  slice-copy_outside, slice-copy_append, some, none, Option, ◌&&◌, ◌||◌, append-nil, append_assoc,
  mod-at-most, true, false, Bool, leb, ltb,
}
use amast.Ringbuf.{Ringbuf, Grant, get_write_ptr, wrap, flush, contents}
use amast.Ringbuf.Valid.{IsValid, read_run, free_run}

wrap-IsValid : {rb : Ringbuf} → IsValid rb → rb.read_offset ≤ rb.write_offset → IsValid (wrap rb)
wrap-IsValid v h = omega arith

contents-wrap :
    (rb : Ringbuf)
    → IsValid rb
    → 0 < rb.read_offset
    → rb.read_offset ≤ rb.write_offset
    → contents (wrap rb) ≡ contents rb
contents-wrap rb v p h =
    ground (arith, append-nil (slice rb.buf rb.read_offset (rb.write_offset - rb.read_offset)))

-- What am_ringbuf_get_write_ptr gives for `size` bytes: the contents stay, and the pointer is the
-- write offset with the whole free run behind it, at least `size` bytes.
pub record WriteGrant (rb : Ringbuf) (size : ℕ) (g : Grant) : Type 0 where
  pub valid : IsValid g.state
  pub same : contents g.state ≡ contents rb
  pub reader : read_run rb ≤ read_run g.state
  pub room :
      ((g.ptr ≡ none) × (g.size ≡ 0))
      ⊎ ((g.ptr ≡ some g.state.write_offset) × (size ≤ g.size) × (g.size ≡ free_run g.state))

pub get_write_ptr_grants :
    (rb : Ringbuf) (size : ℕ)
    → IsValid rb
    → size < rb.buf_size
    → Returns (WriteGrant rb size) (get_write_ptr rb size)
unfolding get_write_ptr
get_write_ptr_grants rb size v h = ground (arith, contents-wrap rb v)

-- the writer's copy to the granted pointer
abbrev pub fill : Ringbuf → List ℕ → Ringbuf
fill rb bytes = record rb { buf = copy rb.buf rb.write_offset bytes }

contents-fill :
    (rb : Ringbuf) (bytes : List ℕ)
    → IsValid rb
    → length bytes ≤ free_run rb
    → contents (fill rb bytes) ≡ contents rb
contents-fill rb bytes v h = ground (
  arith,
  slice-copy_outside rb.buf rb.read_offset (rb.write_offset - rb.read_offset) rb.write_offset bytes,
  slice-copy_outside rb.buf rb.read_offset (rb.buf_size - rb.read_offset - rb.read_skip)
      rb.write_offset bytes,
  slice-copy_outside rb.buf 0 rb.write_offset rb.write_offset bytes,
)

-- The run that ends at the write offset, with the bytes behind it.
extended :
    (rb : Ringbuf) (bytes : List ℕ) (i n m : ℕ)
    → i + n ≡ rb.write_offset
    → m ≡ n + length bytes
    → slice (copy rb.buf rb.write_offset bytes) i m ≡ slice rb.buf i n ++ bytes
extended rb bytes i n m e f = rw (f, ← e) (slice-copy_append rb.buf i n bytes)

-- What a copy of `bytes` and am_ringbuf_flush leave: the bytes behind the contents, the rest of
-- the writer's run, and no less to read for the reader.
pub record Flushed (rb : Ringbuf) (bytes : List ℕ) (r : Ringbuf) : Type 0 where
  pub valid : IsValid r
  pub appended : contents r ≡ contents rb ++ bytes
  pub writer : free_run rb ≤ free_run r + length bytes
  pub reader : read_run rb ≤ read_run r

pub flush-fill :
    (rb : Ringbuf) (bytes : List ℕ)
    → IsValid rb
    → length bytes ≤ free_run rb
    → Returns (Flushed rb bytes) (flush (fill rb bytes) (length bytes))
unfolding flush
flush-fill rb bytes v h = ground (
  arith,
  mod-at-most (rb.write_offset + length bytes) rb.buf_size,
  extended rb bytes rb.read_offset (rb.write_offset - rb.read_offset)
      (rb.write_offset + length bytes - rb.read_offset),
  extended rb bytes rb.read_offset (rb.write_offset - rb.read_offset)
      (rb.buf_size - rb.read_offset),
  extended rb bytes 0 rb.write_offset (rb.write_offset + length bytes),
  slice-copy_outside rb.buf rb.read_offset (rb.buf_size - rb.read_offset - rb.read_skip)
      rb.write_offset bytes,
  append-nil
      (slice (copy rb.buf rb.write_offset bytes) rb.read_offset (rb.buf_size - rb.read_offset)),
  append_assoc (slice rb.buf rb.read_offset (rb.buf_size - rb.read_offset - rb.read_skip))
      (slice rb.buf 0 rb.write_offset) bytes,
)

-- whether `size` bytes fit behind the write offset, or, where that is free, at the ring's start
abbrev pub fits : Ringbuf → ℕ → Bool
fits rb size =
    leb size (free_run rb) || (leb rb.read_offset rb.write_offset && ltb size rb.read_offset)

abbrev pub is_some {ℓ} : {A : Type ℓ} → Option A → Bool
is_some none = false
is_some (some a) = true

-- On a valid ring, a request below the ring's size gets a pointer exactly when the bytes fit in
-- one run: behind the write offset, or at the ring's start in front of the reader.
pub request_granted_iff :
    (rb : Ringbuf) (size : ℕ)
    → IsValid rb
    → size < rb.buf_size
    → Returns (λ g. is_some g.ptr ≡ fits rb size) (get_write_ptr rb size)
unfolding get_write_ptr
request_granted_iff rb size v h = ground arith
