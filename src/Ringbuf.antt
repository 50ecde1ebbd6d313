-- ===== src/Ringbuf.antt =====
-- libs/ringbuf/ringbuf.c: a byte ring for one writer and one reader, whose bytes are read and
-- written in place. Offsets and sizes are C ints that stay within [0, buf_size], so they are
-- numbers; the memory is a map from offsets, and a pointer into it is the offset that it points at.
pub mod Valid
pub mod Write
pub mod Read
pub mod Fifo
mod Examples
use amast.Common.{
  ℕ, ◌+◌, ◌-◌, ◌%◌, ◌^◌, Bool, true, false, Option, none, some, List, ◌++◌, ltb, leb, ◌==◌,
  if◌then◌else◌, Checked, ok, check, ◌>>=◌, ◌>>◌, slice, min,
}

-- struct am_ringbuf
pub record Ringbuf : Type 0 where
  pub dropped : ℕ
  pub read_offset : ℕ
  pub read_skip : ℕ
  pub write_offset : ℕ
  pub buf : ℕ → ℕ
  pub buf_size : ℕ

-- What the two `get_..._ptr` calls give: the new state, `*ptr` (`none` for NULL), `*size`, and
-- the return value.
pub record Grant : Type 0 where
  pub state : Ringbuf
  pub ptr : Option ℕ
  pub size : ℕ
  pub updated : Bool

abbrev pub grant : Ringbuf → Option ℕ → ℕ → Bool → Grant
grant rb p n u = record { state = rb; ptr = p; size = n; updated = u }

pub init : (ℕ → ℕ) → ℕ → Checked Ringbuf
init memory buf_size = do
  check (ltb 0 buf_size)
  ok (record {
    dropped = 0;
    read_offset = 0;
    read_skip = 0;
    write_offset = 0;
    buf = memory;
    buf_size = buf_size;
  })

-- the part of am_ringbuf_get_read_ptr behind `if (rd < wr)`
pub get_read_ptr_wrapped : Ringbuf → Checked Grant
get_read_ptr_wrapped rb = do
  check (leb (rb.read_offset + rb.read_skip) rb.buf_size)
  let avail = rb.buf_size - rb.read_offset - rb.read_skip
  let rb' = record rb { read_offset = 0 }
  if ltb 0 avail
      then ok (grant rb (some rb.read_offset) avail false)
      else (if 0 == rb.write_offset
          then ok (grant rb' none 0 true)
          else ok (grant rb' (some 0) rb.write_offset true))

pub get_read_ptr : Ringbuf → Checked Grant
unfolding get_read_ptr_wrapped
get_read_ptr rb =
    if rb.read_offset == rb.write_offset
    then ok (grant rb none 0 false)
    else (if ltb rb.read_offset rb.write_offset
        then ok (grant rb (some rb.read_offset) (rb.write_offset - rb.read_offset) false)
        else get_read_ptr_wrapped rb)

-- the part of am_ringbuf_get_write_ptr behind `if (wr >= rd) { … }`; `rc` is what it returns
pub get_write_ptr_wrapped : Ringbuf → ℕ → Bool → Checked Grant
get_write_ptr_wrapped rb size rc = do
  check (ltb rb.write_offset rb.read_offset)
  if leb (size + rb.write_offset + 1) rb.read_offset
      then ok (grant rb (some rb.write_offset) (rb.read_offset - rb.write_offset - 1) rc)
      else ok (grant rb none 0 rc)

-- the slot that stays free at the end while the reader is at offset 0
abbrev pub gap : Ringbuf → ℕ
gap rb = if 0 == rb.read_offset then 1 else 0

-- `wr` goes back to offset 0, and the tail is skipped
abbrev pub wrap : Ringbuf → Ringbuf
wrap rb = record rb { read_skip = rb.buf_size - rb.write_offset; write_offset = 0 }

-- `avail >= *size` is tested with the terms moved over, since `avail` may be negative.
pub get_write_ptr : Ringbuf → ℕ → Checked Grant
unfolding get_write_ptr_wrapped
get_write_ptr rb size = do
  check (ltb size rb.buf_size)
  let moved = ltb 0 rb.read_offset
  let rb' = if moved then wrap rb else rb
  if leb rb.read_offset rb.write_offset
      then (if leb (size + rb.write_offset + gap rb) rb.buf_size
          then ok (grant rb (some rb.write_offset) (rb.buf_size - rb.write_offset - gap rb) false)
          else (if leb rb.read_offset size
              then ok (grant rb' none 0 moved)
              else get_write_ptr_wrapped rb' size moved))
      else get_write_ptr_wrapped rb size false

pub flush : Ringbuf → ℕ → Checked Ringbuf
flush rb offset =
    let wr = (rb.write_offset + offset) % rb.buf_size in
    if leb rb.read_offset rb.write_offset
    then (do
      check (leb (offset + rb.write_offset + gap rb) rb.buf_size)
      ok (record rb { write_offset = wr; read_skip = if 0 == wr then 0 else rb.read_skip }))
    else (do
      check (ltb (offset + rb.write_offset) rb.read_offset)
      ok (record rb { write_offset = rb.write_offset + offset }))

pub seek : Ringbuf → ℕ → Checked Ringbuf
seek rb offset =
    if 0 == offset
    then ok rb
    else (if ltb rb.write_offset rb.read_offset
        then (do
          check (leb (rb.read_offset + rb.read_skip) rb.buf_size)
          let avail = rb.buf_size - rb.read_offset - rb.read_skip
          check (leb offset avail)
          ok (record rb {
            read_offset = (rb.read_offset + min offset avail) % (rb.buf_size - rb.read_skip);
          }))
        else (do
          check (ltb rb.read_offset rb.write_offset)
          let avail = rb.write_offset - rb.read_offset
          check (leb offset avail)
          ok (record rb { read_offset = rb.read_offset + min offset avail })))

pub get_data_size : Ringbuf → Checked ℕ
get_data_size rb =
    if leb rb.read_offset rb.write_offset then ok (rb.write_offset - rb.read_offset) else (do
      check (leb (rb.read_offset + rb.read_skip) rb.buf_size)
      ok (rb.buf_size - rb.read_offset - rb.read_skip + rb.write_offset))

pub get_free_size : Ringbuf → Checked ℕ
get_free_size rb =
    if leb rb.read_offset rb.write_offset
    then ok (rb.buf_size + rb.read_offset - 1 - rb.write_offset)
    else (if rb.read_offset == rb.buf_size - rb.read_skip
        then ok (rb.buf_size - rb.write_offset - 1)
        else (do
          check (ltb (rb.read_offset + rb.read_skip) rb.buf_size)
          ok (rb.read_offset - rb.write_offset - 1)))

pub add_dropped : Ringbuf → ℕ → Ringbuf
add_dropped rb dropped = record rb { dropped = (rb.dropped + dropped) % 2 ^ 32 }

pub clear_dropped : Ringbuf → Ringbuf
clear_dropped rb = record rb { dropped = 0 }

-- The bytes that the writer has released and the reader has not, oldest first.
abbrev pub contents : Ringbuf → List ℕ
contents rb =
    if leb rb.read_offset rb.write_offset
    then slice rb.buf rb.read_offset (rb.write_offset - rb.read_offset)
    else slice rb.buf rb.read_offset (rb.buf_size - rb.read_offset - rb.read_skip)
      ++ slice rb.buf 0 rb.write_offset
