-- ===== src/Event/Pool.antt =====
-- The calls of libs/event/event_pool.c that read the pools: the getters, and the log of the events
-- that are held. What is logged is the list of the calls of the user's function.
use amast.Common.{
  ℕ, zero, suc, ◌+◌, not, ltb, leb, ◌==◌, List, [], ◌∷◌, ◌++◌, Option, Checked, ok, check, ◌>>=◌,
  ◌>>◌,
}
use amast.Slist.{Links}
use amast.Onesize.{iterate_over_allocated_unsafe, pointer_alignment}
use amast.Event.{Alloc}

unfoldable pub get_nfree_min : Alloc → (index : ℕ) → Checked ℕ
get_nfree_min alloc index = do check (ltb index alloc.npools); ok ((alloc.pools index).nfree_min)

unfoldable pub get_nfree : Alloc → (index : ℕ) → Checked ℕ
get_nfree alloc index = do check (ltb index alloc.npools); ok ((alloc.pools index).nfree)

unfoldable pub get_nblocks : Alloc → (index : ℕ) → Checked ℕ
get_nblocks alloc index = do check (ltb index alloc.npools); ok ((alloc.pools index).ntotal)

unfoldable pub get_num : Alloc → ℕ
get_num alloc = alloc.npools

-- a call of am_event_log_fn
pub record Logged : Type 0 where
  pub pool_ind : ℕ
  pub index : ℕ
  pub event : ℕ
  pub size : ℕ

-- `event_size` and `event_align` are the size and the alignment of a struct am_event.
module _ (event_size event_align : ℕ) where
  -- am_event_log_cb
  unfoldable pub log_cb : (pool_ind index buf size : ℕ) → Checked Logged
  log_cb pool_ind index buf size = do
    check (not (buf == 0))
    check (leb event_align (pointer_alignment buf))
    check (leb event_size size)
    ok (record { pool_ind = pool_ind; index = index; event = buf; size = size })

  unfoldable pub log_calls : (pool_ind size : ℕ) → List (ℕ × ℕ) → Checked (List Logged)
  log_calls pool_ind size [] = ok []
  log_calls pool_ind size ((index, buf) ∷ calls) = do
    logged ← log_cb pool_ind index buf size
    rest ← log_calls pool_ind size calls
    ok (logged ∷ rest)

  -- The loop over the `k` pools from `i` on. A walk of a free list has `fuel` rounds.
  unfoldable pub log_loop :
      (fuel : ℕ) → Links → Alloc → (num : Option ℕ) → (k i : ℕ) → Checked (List Logged)
  log_loop fuel links alloc num zero i = ok []
  log_loop fuel links alloc num (suc k) i = do
    let pool = alloc.pools i
    calls ← iterate_over_allocated_unsafe fuel links pool num
    logged ← log_calls i pool.block_size calls
    rest ← log_loop fuel links alloc num k (i + 1)
    ok (logged ++ rest)

  -- am_event_alloc_log_unsafe; `num` is `none` for a negative number.
  unfoldable pub alloc_log_unsafe :
      (fuel : ℕ) → Links → Alloc → (num : Option ℕ) → Checked (List Logged)
  alloc_log_unsafe fuel links alloc num = log_loop fuel links alloc num alloc.npools 0
