-- ===== src/Ringbuf/Fifo.antt =====
-- One writer and one reader whose calls interleave in any order.
use amast.Common.{
  ℕ, ◌-◌, ◌≤◌, ◌<◌, ◌≡◌, arith, List, [], ◌++◌, length, ok, Returns, Returns-elim, slice, take,
  drop, take-append-drop, append_assoc,
}
use amast.Ringbuf.{Ringbuf, Grant, get_write_ptr, get_read_ptr, flush, seek, contents, init}
use amast.Ringbuf.Valid.{IsValid, free_run, read_run}
use amast.Ringbuf.Write.{Flushed, fill, WriteGrant, get_write_ptr_grants, flush-fill}
use amast.Ringbuf.Read.{Sought, ReadGrant, get_read_ptr_grants, seek-drop, take-read_run}

-- The ring, what the last calls granted each side and is not used up, and the bytes that have
-- been written and read so far.
pub record Stream : Type 0 where
  pub ring : Ringbuf
  pub writable : ℕ
  pub readable : ℕ
  pub sent : List ℕ
  pub received : List ℕ

-- One call of either side. A side uses no more than what it was granted.
pub data Step : Stream → Stream → Type 0 where
  request :
      (s : Stream) (size : ℕ) (g : Grant)
      → size < s.ring.buf_size
      → get_write_ptr s.ring size ≡ ok g
      → Step s (record s { ring = g.state; writable = g.size })
  release :
      (s : Stream) (bytes : List ℕ) (rb : Ringbuf)
      → length bytes ≤ s.writable
      → flush (fill s.ring bytes) (length bytes) ≡ ok rb
      → Step s
          (record s { ring = rb; writable = s.writable - length bytes; sent = s.sent ++ bytes })
  look :
      (s : Stream) (g : Grant)
      → get_read_ptr s.ring ≡ ok g
      → Step s (record s { ring = g.state; readable = g.size })
  consume :
      (s : Stream) (k : ℕ) (rb : Ringbuf)
      → k ≤ s.readable
      → seek s.ring k ≡ ok rb
      → Step s (record s {
        ring = rb;
        readable = s.readable - k;
        received = s.received ++ slice s.ring.buf s.ring.read_offset k;
      })

pub data Reach (s : Stream) : Stream → Type 0 where
  here : Reach s s
  next : {t u : Stream} → Reach s t → Step t u → Reach s u

-- What every interleaving keeps.
pub record IsFifo (s : Stream) : Type 0 where
  pub valid : IsValid s.ring
  pub write_room : s.writable ≤ free_run s.ring
  pub read_room : s.readable ≤ read_run s.ring
  pub in_order : s.sent ≡ s.received ++ contents s.ring

Step-IsFifo : {s t : Stream} → Step s t → IsFifo s → IsFifo t
Step-IsFifo (request s size g h e) f =
    let w : WriteGrant s.ring size g =
      Returns-elim _ (get_write_ptr_grants s.ring size f.valid h) e in
    ground arith
Step-IsFifo (release s bytes rb h e) f =
    let w : Flushed s.ring bytes rb =
      Returns-elim _ (flush-fill s.ring bytes f.valid (omega arith)) e in
    ground (arith, append_assoc s.received (contents s.ring) bytes)
Step-IsFifo (look s g e) f =
    let w : ReadGrant s.ring g = Returns-elim _ (get_read_ptr_grants s.ring f.valid) e in
    ground arith
Step-IsFifo (consume s k rb h e) f =
    let w : Sought s.ring k rb = Returns-elim _ (seek-drop s.ring k f.valid (omega arith)) e in
    ground (
      arith,
      take-read_run s.ring k f.valid,
      take-append-drop k (contents s.ring),
      append_assoc s.received (take k (contents s.ring)) (drop k (contents s.ring)),
    )

Reach-IsFifo : {s t : Stream} → IsFifo s → Reach s t → IsFifo t
Reach-IsFifo f here = f
Reach-IsFifo f (next r st) = Step-IsFifo st (Reach-IsFifo f r)

-- a ring that am_ringbuf_init has made, with nothing granted
abbrev pub opened : Ringbuf → Stream
opened rb = record { ring = rb; writable = 0; readable = 0; sent = []; received = [] }

pub init-IsFifo :
    (memory : ℕ → ℕ) (size : ℕ) {rb : Ringbuf} → init memory size ≡ ok rb → IsFifo (opened rb)
unfolding init
init-IsFifo memory size e = ground arith

-- However the calls of one writer and one reader interleave after am_ringbuf_init, while neither
-- goes beyond its last grant, the bytes written are the bytes read followed by the bytes that the
-- ring still holds: nothing is lost, repeated or reordered.
pub reads_in_order :
    (memory : ℕ → ℕ) (size : ℕ) {rb : Ringbuf} {t : Stream}
    → init memory size ≡ ok rb
    → Reach (opened rb) t
    → t.sent ≡ t.received ++ contents t.ring
reads_in_order memory size e r = (Reach-IsFifo (init-IsFifo memory size e) r).in_order

-- In every state that such calls reach, none of the next calls fails an assertion: a request below
-- the ring's size, a release or a seek within the last grant, and a look.
pub calls_return :
    (memory : ℕ → ℕ) (size : ℕ) {rb : Ringbuf} {t : Stream} (n k : ℕ) (bytes : List ℕ)
    → init memory size ≡ ok rb
    → Reach (opened rb) t
    → n < t.ring.buf_size
    → k ≤ t.readable
    → length bytes ≤ t.writable
    → Returns (WriteGrant t.ring n) (get_write_ptr t.ring n)
      × Returns (Flushed t.ring bytes) (flush (fill t.ring bytes) (length bytes))
      × Returns (ReadGrant t.ring) (get_read_ptr t.ring)
      × Returns (Sought t.ring k) (seek t.ring k)
calls_return memory size {t} n k bytes e r hn hk hb =
    let f = Reach-IsFifo (init-IsFifo memory size e) r in
    (
      get_write_ptr_grants t.ring n f.valid hn,
      flush-fill t.ring bytes f.valid (omega (arith, f.write_room)),
      get_read_ptr_grants t.ring f.valid,
      seek-drop t.ring k f.valid (omega (arith, f.read_room)),
    )
