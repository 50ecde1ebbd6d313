-- ===== src/Event/Search.antt =====
-- The choice of the pool in am_event_allocate_x.
use amast.Common.{
  ℕ, zero, suc, ◌+◌, ◌-◌, ◌/◌, ◌≤◌, ◌<◌, ◌≡◌, arith, Bool-cases, inl, inr, ltb, Returns,
}
use amast.Event.{search_pool}

-- `k` is the first pool, up to `maxind`, whose blocks are large enough.
pub record IsFirstFit (block_size : ℕ → ℕ) (size maxind k : ℕ) : Type 0 where
  pub below : k ≤ maxind
  pub fits : size ≤ block_size k
  pub least : (j : ℕ) → j < k → block_size j < size

module _ (block_size : ℕ → ℕ) (size maxind : ℕ)
    (ascending : (i j : ℕ) → i < j → j ≤ maxind → block_size i < block_size j) where
  -- All pools up to one that is too small are too small.
  too_small : (m : ℕ) → block_size m < size → m ≤ maxind → (j : ℕ) → j ≤ m → block_size j < size
  too_small m h top j le = elim (Bool-cases (ltb j m)) [
    | inl e ↦ omega (arith, ascending j m (ground arith) top)
    | inr e ↦ let same : j ≡ m = ground arith in rw same h
  ]

  -- With more rounds than pools between the bounds, the binary search ends at the first pool that
  -- is large enough, if the pools below `left` are too small and the one at `right` is not.
  pub search_pool-IsFirstFit :
      (fuel left right : ℕ)
      → right - left < fuel
      → left ≤ right
      → right ≤ maxind
      → ((j : ℕ) → j < left → block_size j < size)
      → size ≤ block_size right
      → Returns (IsFirstFit block_size size maxind) (search_pool fuel block_size size left right)
  unfolding search_pool
  search_pool-IsFirstFit zero left right f le top small large = elim f [ ]
  search_pool-IsFirstFit (suc fuel) left right f le top small large =
      let mid = (left + right) / 2 in
      elim (Bool-cases (ltb left right)) [
        | inr e ↦
            let same : left ≡ right = ground arith in
            rw e (record { below = omega arith; fits = rw same large; least = small })
        | inl e ↦
            let lt : left < right = ground arith in
            rw e (elim (Bool-cases (ltb (block_size mid) size)) [
              | inl a ↦ rw a (
                  search_pool-IsFirstFit fuel (mid + 1) right (omega arith) (omega arith) top
                    (λ j h. too_small mid (ground arith) (omega arith) j (omega arith)) large)
              | inr a ↦ rw a (elim (Bool-cases (ltb size (block_size mid))) [
                | inl b ↦ rw b (
                    search_pool-IsFirstFit fuel left mid (omega arith) (omega arith) (omega arith)
                      small (ground arith))
                | inr b ↦
                    let exact : block_size mid ≡ size = ground arith in
                    rw b (record {
                      below = omega arith;
                      fits = omega arith;
                      least = λ j h. omega (arith, ascending j mid h (omega arith));
                    })
              ])
            ])
      ]
