-- ===== src/Event.antt =====
-- libs/event/event.c and libs/event/event_pool.c: events, their reference counters, and the pools
-- that they are allocated from. The critical sections are the granularity of the model: a call
-- runs as one step. An event is named by its address; NULL is 0.
pub mod Ref
pub mod Search
pub mod Release
pub mod Allocate
pub mod Pool
pub mod Examples
use amast.Common.{
  ℕ, zero, suc, ◌+◌, ◌-◌, ◌*◌, ◌/◌, ◌%◌, ◌^◌, Bool, true, false, not, ◌&&◌, ◌||◌, ltb, leb, ◌==◌,
  if◌then◌else◌, Checked, ok, fault, check, ◌>>=◌, ◌>>◌, update, Option, none, some,
}
use amast.Slist.{Links, non_null}
use amast.Onesize.{Onesize, Config}
use amast.Onesize

-- struct am_event, a word of bit fields
pub record Event : Type 0 where
  pub id : ℕ
  pub ref_counter : ℕ
  pub pool_index_plus_one : ℕ
  pub id_lsw : ℕ

-- struct am_event_alloc: the pools by their index
pub record Alloc : Type 0 where
  pub pools : ℕ → Onesize
  pub npools : ℕ

-- The memory that the event library works on: the header and the bytes behind it of each event,
-- the links of the free lists, and the allocator. A link that is written into a freed block
-- overwrites the event's header: `spelled` is the header that the bytes of a link make up.
pub record World : Type 0 where
  pub event : ℕ → Event
  pub payload : ℕ → ℕ → ℕ
  pub links : Links
  pub alloc : Alloc
  pub spelled : ℕ → Event

-- AM_EVT_USER, AM_EVENT_REF_COUNTER_MAX, AM_EVENT_POOL_INDEX_MAX, AM_EVENT_POOLS_NUM_MAX and
-- sizeof(struct am_event)
abbrev pub evt_user : ℕ
evt_user = 4

abbrev pub ref_counter_max : ℕ
ref_counter_max = 2 ^ 7 - 1

abbrev pub pool_index_max : ℕ
pool_index_max = 2 ^ 5 - 1

abbrev pub pools_num_max : ℕ
pools_num_max = 3

abbrev pub header_size : ℕ
header_size = 4

-- am_event_is_static; `& AM_EVENT_POOL_INDEX_MASK` is the remainder by 2 ^ 5
abbrev pub is_static : Event → Bool
is_static e = 0 == e.pool_index_plus_one % 2 ^ 5

-- the sanity check of an event's identifier against its copy of the low bits
abbrev pub is_intact : Event → Bool
is_intact e = e.id % 2 ^ 4 == e.id_lsw

abbrev pub set_event : World → ℕ → Event → World
set_event w p e = record w { event = update w.event p e }

-- the pool `k` and the links of its free list anew
abbrev pub set_pool : World → ℕ → Links → Onesize → World
set_pool w k next pool = record w {
  links = next;
  alloc = record w.alloc { pools = update w.alloc.pools k pool };
}

-- am_onesize_free on the pool of the event at `p`, whose header the link overwrites
unfoldable pub release : World → ℕ → Checked World
release w p = do
  let k = (w.event p).pool_index_plus_one - 1
  (next, pool) ← Onesize.free w.links (w.alloc.pools k) p
  ok (set_event (set_pool w k next pool) p (w.spelled (next p)))

-- am_event_free_unsafe; `alloc` says whether the allocator that is passed is not NULL.
unfoldable pub free_unsafe : Bool → World → ℕ → Checked World
free_unsafe alloc w p =
    let e = w.event p in
    let counted = set_event w p (record e { ref_counter = e.ref_counter - 1 }) in
    if is_static e then ok w else (do
      check alloc
      check (leb e.pool_index_plus_one pools_num_max)
      check (is_intact e)
      if ltb 1 e.ref_counter then ok counted else release w p)

-- am_event_free and am_event_dec_ref_cnt
unfoldable pub free : Bool → World → ℕ → Checked World
free alloc w p = do check (non_null p); free_unsafe alloc w p

unfoldable pub inc_ref_cnt : World → ℕ → Checked World
inc_ref_cnt w p = do
  check (non_null p)
  let e = w.event p
  if is_static e then ok w else (do
    check (is_intact e)
    check (ltb e.ref_counter ref_counter_max)
    ok (set_event w p (record e { ref_counter = e.ref_counter + 1 })))

pub get_ref_cnt : World → ℕ → Checked ℕ
get_ref_cnt w p = do check (non_null p); ok (w.event p).ref_counter

-- The binary search of am_event_allocate_x, on fuel.
pub search_pool : ℕ → (ℕ → ℕ) → ℕ → ℕ → ℕ → Checked ℕ
search_pool zero block_size size left right = fault
search_pool (suc fuel) block_size size left right =
    let mid = (left + right) / 2 in
    let above = search_pool fuel block_size size (mid + 1) right in
    let below = search_pool fuel block_size size left mid in
    if ltb left right
    then (if ltb (block_size mid) size
        then above
        else if ltb size (block_size mid)
        then below
        else ok mid)
    else ok left

-- the header of a new event of pool `k`
abbrev pub new_event : ℕ → ℕ → Event
new_event id k = record {
  id = id % 2 ^ 16;
  ref_counter = 0;
  pool_index_plus_one = (k + 1) % 2 ^ 5;
  id_lsw = id % 2 ^ 16 % 2 ^ 4;
}

-- am_event_allocate_x; the first part of the result is the event, or NULL. The search has a round
-- for each pool and one more.
pub allocate_x : World → (id size margin : ℕ) → Checked (ℕ × World)
unfolding search_pool
allocate_x w id size margin = do
  let block_size = λ (i : ℕ). (w.alloc.pools i).block_size
  check (ltb 0 size)
  check (ltb 0 w.alloc.npools)
  check (leb w.alloc.npools pool_index_max)
  let maxind = w.alloc.npools - 1
  check (leb size (block_size maxind))
  check (leb evt_user id)
  k ← search_pool (w.alloc.npools + 1) block_size size 0 maxind
  (p, next, pool) ← Onesize.allocate_x w.links (w.alloc.pools k) margin
  let w' = set_pool w k next pool
  ok (if non_null p then (p, set_event w' p (new_event id k)) else (0, w'))

pub allocate : World → (id size : ℕ) → Checked (ℕ × World)
unfolding allocate_x
allocate w id size = do (p, w') ← allocate_x w id size 0; check (non_null p); ok (p, w')

-- the bytes behind the header of `src`, `n` of them, copied behind the header of `dst`
abbrev pub copy_payload : World → (dst src n : ℕ) → World
copy_payload w dst src n = record w {
  payload = update w.payload dst (λ i. if ltb i n then w.payload src i else w.payload dst i);
}

pub dup_x : World → (p size margin : ℕ) → Checked (ℕ × World)
unfolding allocate_x
dup_x w p size margin = do
  check (non_null p)
  let e = w.event p
  check (leb header_size size)
  check (ltb 0 w.alloc.npools)
  check (leb evt_user e.id)
  check (is_static e || is_intact e)
  (q, w') ← allocate_x w e.id size margin
  ok (
    q,
    if non_null q && ltb header_size size then copy_payload w' q p (size - header_size) else w',
  )

pub dup : World → (p size : ℕ) → Checked (ℕ × World)
unfolding dup_x
dup w p size = do (q, w') ← dup_x w p size 0; check (non_null q); ok (q, w')

-- am_event_alloc_init: memset of the allocator to zero
pub alloc_init : Alloc
alloc_init = record {
  pools = λ _. record {
    pool_beg = 0;
    pool_end = 0;
    block_size = 0;
    fl = record { sentinel = 0; back = 0 };
    nfree = 0;
    ntotal = 0;
    nfree_min = 0;
    nbump = 0;
  };
  npools = 0;
}

-- am_event_alloc_add_pool; `sentinel` is the address of the new pool's list structure.
pub alloc_add_pool : (item_size item_align sentinel : ℕ) → World → Config → Checked World
alloc_add_pool item_size item_align sentinel w cfg = do
  let n = w.alloc.npools
  check (ltb n pools_num_max)
  check (not (ltb 0 n) || ltb (w.alloc.pools (n - 1)).block_size cfg.block_size)
  (next, pool) ←
      Onesize.init item_size item_align w.links (record { sentinel = sentinel; back = 0 }) cfg
  ok (record w {
    links = next;
    alloc = record { pools = update w.alloc.pools n pool; npools = n + 1 };
  })
