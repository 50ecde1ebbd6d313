-- ===== src/Event/Examples.antt =====
-- A memory of events: 64 is a pooled event with one holder, 5, 6 and 7 are static events.
use amast.Common.{
  ℕ, ◌≡◌, refl, arith, [], ◌∷◌, ◌==◌, if◌then◌else◌, true, ok, fault, none, Returns, ◌>>=◌, update,
}
use amast.Slist
use amast.Onesize.{Onesize, iterate_over_allocated_unsafe, pointer_alignment}
use amast.Onesize.Valid.{IsPool, IsOwned}
use amast.Event.{World, Event, free, free_unsafe, inc_ref_cnt, allocate_x, search_pool}
use amast.Event.Pool.{
  get_nfree_min, get_nfree, get_nblocks, get_num, log_cb, log_calls, log_loop, alloc_log_unsafe,
}
use amast.Event.Ref.{IsPooled, free-inc_ref_cnt}
use amast.Event.Release.{Released, free_last-Released}
use amast.Event.Allocate.{IsReady, Taken, allocate_x-Taken}

abbrev static_event : Event
static_event = record { id = 9; ref_counter = 0; pool_index_plus_one = 0; id_lsw = 0 }

abbrev pooled_event : Event
pooled_event = record { id = 20; ref_counter = 1; pool_index_plus_one = 1; id_lsw = 4 }

-- four blocks of eight bytes at address 64, of which block 1 was freed and block 0 is held
abbrev pool : Onesize
pool = record {
  pool_beg = 64;
  pool_end = 96;
  block_size = 8;
  fl = record { sentinel = 8; back = 72 };
  nfree = 3;
  ntotal = 4;
  nfree_min = 2;
  nbump = 2;
}

abbrev pub world : World
world = record {
  event = update (λ _. static_event) 64 pooled_event;
  payload = λ _ _. 0;
  links = update (update (λ _. 0) 8 72) 72 8;
  alloc = record { pools = λ _. pool; npools = 1 };
  spelled = λ _. static_event;
}

pub pool-IsPool : IsPool world.links pool (72 ∷ [])
pool-IsPool = record {
  list = ground arith;
  blocks = ((1, omega arith, refl), tt);
  begins = omega arith;
  sized = omega arith;
  ends = refl;
  bumped = omega arith;
  counted = refl;
  least = omega arith;
  outside = λ i e. absurd (omega arith);
}

pub event_64-IsOwned : IsOwned pool (72 ∷ []) 64
event_64-IsOwned = record { index = 0; below = omega arith; at = refl; not_free = omega arith }

pub event_64-IsPooled : IsPooled (world.event 64)
event_64-IsPooled = record { dynamic = refl; indexed = omega arith; intact = refl }

world-IsReady : IsReady world (λ _. 72 ∷ [])
world-IsReady = record {
  some_pool = omega arith;
  few = omega arith;
  ascending = λ i j h le. absurd (omega arith);
  pools = λ k h. pool-IsPool;
}

free-inc_ref_cnt_example : (inc_ref_cnt world 64 >>= λ w'. free true w' 64) ≡ ok world
free-inc_ref_cnt_example =
    free-inc_ref_cnt world 64 (omega arith) event_64-IsPooled (omega arith) (omega arith)

-- blocks of 8, 16, 32 and 64 bytes: the third pool serves 20 bytes
abbrev block_sizes : ℕ → ℕ
block_sizes i = if i == 0 then 8 else if i == 1 then 16 else if i == 2 then 32 else 64

search_test : search_pool 5 block_sizes 20 0 3 ≡ ok 2
unfolding search_pool
search_test = refl

free_last-Released_example : Returns (Released world 64 (72 ∷ [])) (free_unsafe true world 64)
free_last-Released_example =
    free_last-Released world 64 (72 ∷ []) event_64-IsPooled (omega arith) pool-IsPool
      event_64-IsOwned

allocate_x-Taken_example : Returns (Taken world (λ _. 72 ∷ []) 20 8 1) (allocate_x world 20 8 1)
allocate_x-Taken_example =
    allocate_x-Taken world (λ _. 72 ∷ []) 20 8 1 world-IsReady (omega arith) (omega arith)
      (omega arith)

-- The event that is held is logged, and the free block beside it is not.
alloc_log_test :
    alloc_log_unsafe 8 8 2 world.links world.alloc none
    ≡ ok (record { pool_ind = 0; index = 0; event = 64; size = 8 } ∷ [])
unfolding alloc_log_unsafe log_loop log_calls log_cb iterate_over_allocated_unsafe pointer_alignment
    Slist.owns
alloc_log_test = refl

getters_test :
    (get_nfree world.alloc 0 ≡ ok 3)
    × (get_nfree_min world.alloc 0 ≡ ok 2)
    × (get_nblocks world.alloc 0 ≡ ok 4)
    × (get_nblocks world.alloc 1 ≡ fault)
    × (get_num world.alloc ≡ 1)
unfolding get_nfree get_nfree_min get_nblocks get_num
getters_test = (refl, refl, refl, refl, refl)
