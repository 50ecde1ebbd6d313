-- ===== src/Ringbuf/Examples.antt =====
-- Tests of the ring buffer, and its theorems at a ring of eight bytes.
use amast.Common.{◌≡◌, refl, arith, [], ◌∷◌, ◌++◌, true, some, ok, Returns}
use amast.Ringbuf.{Ringbuf, grant, get_write_ptr, get_read_ptr, flush, seek, contents, init}
use amast.Ringbuf.Valid.{IsValid}
use amast.Ringbuf.Write.{fill, WriteGrant, Flushed}
use amast.Ringbuf.Read.{ReadGrant, Sought}
use amast.Ringbuf.Fifo.{
  Stream, Reach, here, next, request, release, look, consume, opened, reads_in_order, calls_return,
}

abbrev fresh : Ringbuf
fresh = record {
  dropped = 0;
  read_offset = 0;
  read_skip = 0;
  write_offset = 0;
  buf = λ _. 0;
  buf_size = 8;
}

-- three bytes read, four left, and the writer at the last slot
abbrev late : Ringbuf
late = record fresh { read_offset = 3; write_offset = 7; buf = λ i. i }

late-IsValid : IsValid late
late-IsValid = omega arith

-- two bytes do not fit behind offset 7, so the writer goes back to the start
late_wraps :
    get_write_ptr late 2
    ≡ ok (grant (record late { read_skip = 1; write_offset = 0 }) (some 0) 2 true)
unfolding get_write_ptr
late_wraps = refl

-- three bytes written, then two of them read
abbrev script_end : Stream
script_end = record {
  ring = record fresh {
    read_offset = 2;
    write_offset = 3;
    buf = (fill fresh (5 ∷ 6 ∷ 7 ∷ [])).buf;
  };
  writable = 4;
  readable = 1;
  sent = 5 ∷ 6 ∷ 7 ∷ [];
  received = 5 ∷ 6 ∷ [];
}

script : Reach (opened fresh) script_end
unfolding get_write_ptr get_read_ptr flush seek
script =
    next
      (next
        (next (next here (request _ 3 _ (omega arith) refl))
          (release _ (5 ∷ 6 ∷ 7 ∷ []) _ (omega arith) refl))
        (look _ _ refl))
      (consume _ 2 _ (omega arith) refl)

fresh_test : init (λ _. 0) 8 ≡ ok fresh
unfolding init
fresh_test = refl

reads_in_order_example : 5 ∷ 6 ∷ 7 ∷ [] ≡ (5 ∷ 6 ∷ []) ++ contents script_end.ring
reads_in_order_example = reads_in_order (λ _. 0) 8 fresh_test script

calls_return_example :
    Returns (WriteGrant script_end.ring 6) (get_write_ptr script_end.ring 6)
    × Returns (Flushed script_end.ring (9 ∷ [])) (flush (fill script_end.ring (9 ∷ [])) 1)
    × Returns (ReadGrant script_end.ring) (get_read_ptr script_end.ring)
    × Returns (Sought script_end.ring 1) (seek script_end.ring 1)
calls_return_example =
    calls_return (λ _. 0) 8 6 1 (9 ∷ []) fresh_test script (omega arith) (omega arith) (omega arith)
