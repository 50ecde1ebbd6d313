-- ===== src/Onesize/Valid.antt =====
-- The invariant of a pool, and who holds its blocks.
use native.Mathlib.Nat.{mul-mod_right, eq_of_mul-eq-mul_left, mul-lt-mul_of_pos_left, mul_comm}
use amast.Common.{
  ℕ, ◌+◌, ◌-◌, ◌*◌, ◌%◌, ◌≤◌, ◌<◌, ◌≡◌, ◌≢◌, ◌∙◌, sym, ap, arith, List, [], ◌∷◌, length, true,
  false, not, ◌||◌, ◌==◌,
}
use amast.Slist.{Links, peek_front, non_null}
use amast.Slist.Chain.{Fresh, Holds}
use amast.Onesize.{Onesize, block, is_memptr_valid}

-- The items are blocks below the bump index, in a pool that begins at `beg`.
abbrev pub Blocks : (beg size bump : ℕ) → List ℕ → Type 0
Blocks beg size bump [] = Unit {0}
Blocks beg size bump (p ∷ ps) =
    ((i : ℕ) × (i < bump) × (p ≡ beg + size * i)) × Blocks beg size bump ps

-- The pool's free list holds the items `free`.
pub record IsPool (next : Links) (hnd : Onesize) (free : List ℕ) : Type 0 where
  pub list : Holds next hnd.fl free
  pub blocks : Blocks hnd.pool_beg hnd.block_size hnd.nbump free
  pub begins : 0 < hnd.pool_beg
  pub sized : 0 < hnd.block_size
  pub ends : hnd.pool_end ≡ hnd.pool_beg + hnd.ntotal * hnd.block_size
  pub bumped : hnd.nbump ≤ hnd.ntotal
  pub counted : hnd.nfree + hnd.nbump ≡ hnd.ntotal + length free
  pub least : hnd.nfree_min ≤ hnd.nfree
  -- the list's sentinel is not in the pool
  pub outside : (i : ℕ) → block hnd i ≢ hnd.fl.sentinel

-- `p` is a block that has been given out and not been taken back.
pub record IsOwned (hnd : Onesize) (free : List ℕ) (p : ℕ) : Type 0 where
  pub index : ℕ
  pub below : index < hnd.nbump
  pub at : p ≡ block hnd index
  pub not_free : Fresh p free

pub block-valid :
    (hnd : Onesize) (i : ℕ)
    → 0 < hnd.block_size
    → hnd.pool_end ≡ hnd.pool_beg + hnd.ntotal * hnd.block_size
    → i < hnd.ntotal
    → is_memptr_valid hnd (block hnd i) ≡ true
unfolding is_memptr_valid
block-valid hnd i p e h =
    let offset : block hnd i - hnd.pool_beg ≡ hnd.block_size * i = omega arith in
    let aligned : (block hnd i - hnd.pool_beg) % hnd.block_size ≡ 0 =
      ap (λ t. t % hnd.block_size) offset ∙ mul-mod_right hnd.block_size i in
    ground
      (arith, mul-lt-mul_of_pos_left {k = hnd.block_size} h p, mul_comm hnd.block_size hnd.ntotal)

pub block-injective :
    (hnd : Onesize) (i j : ℕ) → 0 < hnd.block_size → block hnd i ≡ block hnd j → i ≡ j
block-injective hnd i j p e = eq_of_mul-eq-mul_left hnd.block_size p i j (omega arith)

-- What am_onesize_allocate_x and am_onesize_free check of the free list's first item holds.
pub front-valid :
    (next : Links) (hnd : Onesize) (free : List ℕ)
    → Holds next hnd.fl free
    → Blocks hnd.pool_beg hnd.block_size hnd.nbump free
    → 0 < hnd.block_size
    → hnd.pool_end ≡ hnd.pool_beg + hnd.ntotal * hnd.block_size
    → hnd.nbump ≤ hnd.ntotal
    → (not (non_null (peek_front next hnd.fl)) || is_memptr_valid hnd (peek_front next hnd.fl))
      ≡ true
front-valid next hnd [] h b p e le = ground arith
front-valid next hnd (f ∷ fs) h ((i, below, at), b) p e le =
    let good : is_memptr_valid hnd f ≡ true = rw at (block-valid hnd i p e (omega arith)) in
    let front : next hnd.fl.sentinel ≡ f = h.chain.0 in
    let ne : f ≢ hnd.fl.sentinel = λ k. h.distinct.0.0 (sym k) in
    let full : (next hnd.fl.sentinel == hnd.fl.sentinel) ≡ false = ground arith in
    rw (full, front, good) (ground arith)
