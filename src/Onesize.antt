-- ===== src/Onesize.antt =====
-- libs/onesize/onesize.c: a pool of blocks of one size, given out from a free list first and
-- from the untouched end of the pool ("bump") next. Pointers are addresses, the free list is a
-- list of libs/slist/slist.c, and its `next` fields stand in the map of links that is passed on.
pub mod Valid
pub mod Iterate
mod Count
pub mod Allocate
pub mod Free
mod Examples
use Prim.Native.Nat.{bit_and}
use amast.Common.{
  ℕ, zero, suc, ◌+◌, ◌-◌, ◌*◌, ◌/◌, ◌%◌, ◌^◌, min, max, Bool, true, false, not, ◌&&◌, ◌||◌, ltb,
  leb, ◌==◌, if◌then◌else◌, Checked, ok, fault, check, ◌>>=◌, ◌>>◌, List, Option, none, some, [],
  ◌∷◌,
}
use amast.Slist.{Links, Slist, non_null, peek_front, pop_front, push_front, owns}
use amast.Slist

-- struct am_onesize
pub record Onesize : Type 0 where
  pub pool_beg : ℕ
  pub pool_end : ℕ
  pub block_size : ℕ
  pub fl : Slist
  pub nfree : ℕ
  pub ntotal : ℕ
  pub nfree_min : ℕ
  pub nbump : ℕ

-- struct am_onesize_cfg
pub record Config : Type 0 where
  pub pool_ptr : ℕ
  pub pool_size : ℕ
  pub block_size : ℕ
  pub alignment : ℕ

-- the conjunction of the three assertions of am_assert_memptr_validity
pub is_memptr_valid : Onesize → ℕ → Bool
is_memptr_valid hnd p =
    leb hnd.pool_beg p && (ltb p hnd.pool_end && (p - hnd.pool_beg) % hnd.block_size == 0)

-- the address of block `i`
abbrev pub block : Onesize → ℕ → ℕ
block hnd i = hnd.pool_beg + hnd.block_size * i

-- the part of am_onesize_allocate_x behind am_slist_pop_front
pub allocate_popped : Onesize → ℕ → Links → Checked (ℕ × Links × Onesize)
unfolding is_memptr_valid
allocate_popped hnd ptr next =
    let front = peek_front next hnd.fl in
    if non_null ptr
    then (do
      check (is_memptr_valid hnd ptr)
      check (not (non_null front) || is_memptr_valid hnd front)
      ok (ptr, next, hnd))
    else (do
      check (ltb hnd.nbump hnd.ntotal)
      ok (block hnd hnd.nbump, next, record hnd { nbump = hnd.nbump + 1 }))

-- The first part of the result is the block, or NULL.
pub allocate_x : Links → Onesize → ℕ → Checked (ℕ × Links × Onesize)
unfolding allocate_popped
allocate_x next hnd margin =
    let nfree = hnd.nfree - 1 in
    let rest = do
      (ptr, next', fl) ← pop_front next hnd.fl
      allocate_popped (record hnd { nfree = nfree; nfree_min = min hnd.nfree_min nfree; fl = fl })
          ptr next'
    in if leb hnd.nfree margin then ok (0, next, hnd) else rest

pub allocate : Links → Onesize → Checked (ℕ × Links × Onesize)
unfolding allocate_x
allocate next hnd = do
  (ptr, next', hnd') ← allocate_x next hnd 0
  check (non_null ptr)
  ok (ptr, next', hnd')

unfoldable pub free : Links → Onesize → ℕ → Checked (Links × Onesize)
unfolding is_memptr_valid
free next hnd ptr = do
  check (non_null ptr)
  check (is_memptr_valid hnd ptr)
  let head = peek_front next hnd.fl
  check (not (non_null head) || (not (head == ptr) && is_memptr_valid hnd head))
  check (ltb hnd.nfree hnd.ntotal)
  (next', fl) ← push_front next hnd.fl ptr
  ok (next', record hnd { nfree = hnd.nfree + 1; fl = fl })

pub free_all : Links → Onesize → Links × Onesize
free_all next hnd =
    let (next', fl) = Slist.init next hnd.fl in
    (next', record hnd { fl = fl; nbump = 0; nfree = hnd.ntotal })

-- The loop of am_onesize_iterate_over_allocated_unsafe over the `k` blocks from `i` on: the calls
-- of the callback in order, each with its index and its block. A walk of the free list has
-- `fuel` rounds.
pub iterate_loop : ℕ → Links → Onesize → ℕ → (k i iterated : ℕ) → Checked (List (ℕ × ℕ))
iterate_loop fuel next hnd num zero i iterated = ok []
iterate_loop fuel next hnd num (suc k) i iterated =
    let skip = iterate_loop fuel next hnd num k (i + 1) iterated in
    let call = iterate_loop fuel next hnd num k (i + 1) (iterated + 1) in
    let round = do
      owned ← owns fuel next hnd.fl (block hnd i)
      if owned then skip else (do rest ← call; ok ((iterated, block hnd i) ∷ rest))
    in if ltb iterated num then round else ok []

-- `num` is `none` for a negative number, which stands for all blocks.
unfoldable pub iterate_over_allocated_unsafe :
    ℕ → Links → Onesize → Option ℕ → Checked (List (ℕ × ℕ))
unfolding iterate_loop
iterate_over_allocated_unsafe fuel next hnd none =
    iterate_loop fuel next hnd hnd.nbump hnd.nbump 0 0
iterate_over_allocated_unsafe fuel next hnd (some num) = do
  check (ltb 0 num)
  iterate_loop fuel next hnd (min num hnd.nbump) hnd.nbump 0 0

pub is_pow2 : ℕ → Bool
is_pow2 x = 0 == bit_and ((x + 2 ^ 32 - 1) % 2 ^ 32) x

-- AM_ALIGN_SIZE, in size_t
pub align_size : ℕ → ℕ → ℕ
align_size size align = bit_and ((size + align - 1) % 2 ^ 64) (2 ^ 64 - align)

-- AM_ALIGNOF_PTR: the lowest bit that is set
unfoldable pub pointer_alignment : ℕ → ℕ
pointer_alignment ptr = bit_and ptr (2 ^ 64 - ptr)

-- `item_size` and `item_align` are the size and the alignment of a struct am_slist_item, and
-- `fl` is the list structure inside the descriptor.
pub init : (item_size item_align : ℕ) → Links → Slist → Config → Checked (Links × Onesize)
unfolding is_pow2 align_size pointer_alignment
init item_size item_align next fl cfg = do
  check (non_null cfg.pool_ptr)
  check (ltb 0 cfg.pool_size)
  check (ltb 0 cfg.block_size)
  check (leb cfg.block_size cfg.pool_size)
  check (is_pow2 cfg.alignment)
  let alignment = max cfg.alignment item_align
  check (leb alignment (pointer_alignment cfg.pool_ptr))
  let block_size = align_size (max cfg.block_size item_size) alignment
  check (leb block_size cfg.pool_size)
  let ntotal = cfg.pool_size / block_size
  let (next', fl') = Slist.init next fl
  ok (
    next',
    record {
      pool_beg = cfg.pool_ptr;
      pool_end = cfg.pool_ptr + ntotal * block_size;
      block_size = block_size;
      fl = fl';
      nfree = ntotal;
      ntotal = ntotal;
      nfree_min = ntotal;
      nbump = 0;
    },
  )
