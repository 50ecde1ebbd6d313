-- ===== src/Onesize/Examples.antt =====
-- A pool of four blocks of eight bytes at address 64: block 0 is held, block 1 was freed, blocks 2
-- and 3 have never been given out.
use amast.Common.{◌≡◌, refl, arith, [], ◌∷◌, update, ok, Returns, none, some, take}
use amast.Slist
use amast.Slist.{Links, Slist}
use amast.Onesize.{Onesize, Config, allocate_x, free, init, iterate_over_allocated_unsafe}
use amast.Onesize.Iterate.{held_blocks, numbered, iterate-held_blocks}
use amast.Onesize.Valid.{IsPool, IsOwned}
use amast.Onesize.Allocate.{Allocated, allocate_x-Allocated}
use amast.Onesize.Free.{Freed, free-Freed}

abbrev links : Links
links = update (update (λ _. 0) 8 72) 72 8

abbrev pool : Onesize
pool = record {
  pool_beg = 64;
  pool_end = 96;
  block_size = 8;
  fl = record { sentinel = 8; back = 72 };
  nfree = 3;
  ntotal = 4;
  nfree_min = 2;
  nbump = 2;
}

pool-IsPool : IsPool links pool (72 ∷ [])
pool-IsPool = record {
  list = ground arith;
  blocks = ((1, omega arith, refl), tt);
  begins = omega arith;
  sized = omega arith;
  ends = refl;
  bumped = omega arith;
  counted = refl;
  least = omega arith;
  outside = λ i e. absurd (omega arith);
}

block_0-IsOwned : IsOwned pool (72 ∷ []) 64
block_0-IsOwned = record { index = 0; below = omega arith; at = refl; not_free = omega arith }

allocate_x-Allocated_example : Returns (Allocated links pool (72 ∷ [])) (allocate_x links pool 2)
allocate_x-Allocated_example = allocate_x-Allocated links pool (72 ∷ []) 2 pool-IsPool (omega arith)

free-Freed_example : Returns (Freed links pool (72 ∷ []) 64) (free links pool 64)
free-Freed_example = free-Freed links pool (72 ∷ []) 64 pool-IsPool block_0-IsOwned

-- the free block is skipped, and what was never given out is not looked at
iterate_test : iterate_over_allocated_unsafe 2 links pool none ≡ ok ((0, 64) ∷ [])
unfolding iterate_over_allocated_unsafe Slist.owns
iterate_test = refl

-- 100 bytes in blocks of 12 bytes, rounded up to 16
abbrev cfg : Config
cfg = record { pool_ptr = 64; pool_size = 100; block_size = 12; alignment = 4 }

init_test :
    init 8 8 (λ _. 0) (record { sentinel = 8; back = 0 }) cfg
    ≡ ok (
      update (λ _. 0) 8 8,
      record {
        pool_beg = 64;
        pool_end = 160;
        block_size = 16;
        fl = record { sentinel = 8; back = 8 };
        nfree = 6;
        ntotal = 6;
        nfree_min = 6;
        nbump = 0;
      },
    )
unfolding init Slist.init
init_test = refl

iterate-held_blocks_example :
    (iterate_over_allocated_unsafe 2 links pool none
      ≡ ok (numbered 0 (held_blocks pool (72 ∷ []) 2 0)))
    × (iterate_over_allocated_unsafe 2 links pool (some 1)
        ≡ ok (numbered 0 (take 1 (held_blocks pool (72 ∷ []) 2 0))))
iterate-held_blocks_example = iterate-held_blocks 2 links pool (72 ∷ []) 0 pool-IsPool (omega arith)
