-- ===== src/Onesize/Iterate.antt =====
-- What am_onesize_iterate_over_allocated_unsafe calls its function for.
use amast.Common.{
  ℕ, zero, suc, ◌+◌, ◌≤◌, ◌<◌, ◌≡◌, refl, arith, true, false, ltb, leb, if◌then◌else◌, Bool-cases,
  inl, inr, List, [], ◌∷◌, length, take, take_all, min, none, some, ok,
}
use amast.Slist.{Links}
use amast.Slist.Search.{has, owns-has}
use amast.Onesize.{Onesize, block, iterate_loop, iterate_over_allocated_unsafe}
use amast.Onesize.Valid.{IsPool}

-- Of the `k` blocks from the `i`-th on, those that are not free, in order.
pub held_blocks : (hnd : Onesize) → (free : List ℕ) → (k i : ℕ) → List ℕ
held_blocks hnd free zero i = []
held_blocks hnd free (suc k) i =
    let rest = held_blocks hnd free k (i + 1) in
    if has (block hnd i) free then rest else block hnd i ∷ rest

pub numbered : (from : ℕ) → List ℕ → List (ℕ × ℕ)
numbered from [] = []
numbered from (p ∷ ps) = (from, p) ∷ numbered (from + 1) ps

length-held_blocks :
    (hnd : Onesize) (free : List ℕ) (k i : ℕ) → length (held_blocks hnd free k i) ≤ k
unfolding held_blocks
length-held_blocks hnd free zero i = omega arith
length-held_blocks hnd free (suc k) i = ground (arith, length-held_blocks hnd free k (i + 1))

take-min : (a b : ℕ) (xs : List ℕ) → length xs ≤ b → take (min a b) xs ≡ take a xs
take-min a b xs le = elim (Bool-cases (leb a b)) [
  | inl low ↦ let least : min a b ≡ a = ground arith in rw least refl
  | inr high ↦
      let least : min a b ≡ b = ground arith in
      rw (least, take_all b xs le, take_all a xs (ground arith)) refl
]

-- The loop with `left` more calls to make, at the most.
iterate_loop-held_blocks :
    (fuel : ℕ) (next : Links) (hnd : Onesize) (free : List ℕ) (left k i iterated : ℕ)
    → IsPool next hnd free
    → length free < fuel
    → iterate_loop fuel next hnd (iterated + left) k i iterated
      ≡ ok (numbered iterated (take left (held_blocks hnd free k i)))
unfolding iterate_loop held_blocks numbered
iterate_loop-held_blocks fuel next hnd free zero zero i iterated v h = refl
iterate_loop-held_blocks fuel next hnd free (suc left) zero i iterated v h = refl
iterate_loop-held_blocks fuel next hnd free zero (suc k) i iterated v h =
    let enough : ltb iterated (iterated + 0) ≡ false = ground arith in rw enough refl
iterate_loop-held_blocks fuel next hnd free (suc left) (suc k) i iterated v h =
    let more : ltb iterated (iterated + suc left) ≡ true = ground arith in
    let owned = owns-has fuel next hnd.fl free (block hnd i) v.list (omega (arith, v.begins)) h in
    elim (Bool-cases (has (block hnd i) free)) [
      | inl skip ↦
          rw (more, owned, skip)
            (iterate_loop-held_blocks fuel next hnd free (suc left) k (i + 1) iterated v h)
      | inr held ↦
          let sum : iterated + suc left ≡ iterated + 1 + left = omega arith in
          let rest : iterate_loop fuel next hnd (iterated + suc left) k (i + 1) (iterated + 1)
              ≡ ok (numbered (iterated + 1) (take left (held_blocks hnd free k (i + 1)))) =
            rw sum
              (iterate_loop-held_blocks fuel next hnd free left k (i + 1) (iterated + 1) v h) in
          rw (more, owned, held, rest) refl
    ]

-- On a valid pool, with a round for each free block and one more in a walk of the free list,
-- am_onesize_iterate_over_allocated_unsafe fails no assertion, and calls its function, with the
-- numbers 0, 1, 2 and so on, for the blocks that have been given out and are not free, in the order
-- of their addresses: for all of them if `num` is negative, and else for the first `num`, which is
-- not 0.
pub iterate-held_blocks :
    (fuel : ℕ) (next : Links) (hnd : Onesize) (free : List ℕ) (n : ℕ)
    → IsPool next hnd free
    → length free < fuel
    → (iterate_over_allocated_unsafe fuel next hnd none
        ≡ ok (numbered 0 (held_blocks hnd free hnd.nbump 0)))
      × (iterate_over_allocated_unsafe fuel next hnd (some (suc n))
          ≡ ok (numbered 0 (take (suc n) (held_blocks hnd free hnd.nbump 0))))
unfolding iterate_over_allocated_unsafe
iterate-held_blocks fuel next hnd free n v h =
    let start : (left : ℕ) → 0 + left ≡ left = omega arith in
    let some_calls : ltb 0 (suc n) ≡ true = ground arith in
    let loop = λ (left : ℕ).
      rw (start left) at (iterate_loop-held_blocks fuel next hnd free left hnd.nbump 0 0 v h) in
    (
      rw
          (take_all hnd.nbump (held_blocks hnd free hnd.nbump 0)
            (length-held_blocks hnd free hnd.nbump 0))
          at (loop hnd.nbump),
      rw some_calls (
          rw
            (take-min (suc n) hnd.nbump (held_blocks hnd free hnd.nbump 0)
              (length-held_blocks hnd free hnd.nbump 0))
            at (loop (min (suc n) hnd.nbump))),
    )
