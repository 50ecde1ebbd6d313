-- ===== src/Onesize/Allocate.antt =====
-- am_onesize_allocate_x and am_onesize_allocate.
use amast.Common.{
  ℕ, ◌+◌, ◌-◌, ◌≤◌, ◌<◌, ◌≡◌, ◌≢◌, ◌∙◌, ◌↔◌, refl, ap, arith, List, [], ◌∷◌, true, false, leb, ltb,
  min, ok, Returns, Returns-bind,
}
use amast.Slist.{Links, Slist, pop_front, non_null}
use amast.Slist.Chain.{Holds}
use amast.Slist.Remove.{pop_front-nil, pop_front-Holds}
use amast.Onesize.{Onesize, block, is_memptr_valid, allocate_x, allocate_popped, allocate}
use amast.Onesize.Valid.{IsPool, IsOwned, block-valid, block-injective, front-valid}

-- What an allocation gives: a block of the pool that nobody held and that is now held; all other
-- blocks are held as before.
pub record Allocated (next : Links) (hnd : Onesize) (free : List ℕ) (r : ℕ × Links × Onesize)
    : Type 0 where
  pub free' : List ℕ
  pub pool : IsPool r.1 r.2 free'
  pub owned : IsOwned r.2 free' r.0
  pub new : ¬ IsOwned hnd free r.0
  pub others : (q : ℕ) → q ≢ r.0 → IsOwned hnd free q ↔ IsOwned r.2 free' q
  pub count : hnd.nfree ≡ r.2.nfree + 1

-- what is left of the pool's descriptor after the counters are updated
abbrev counted_down : Onesize → Slist → Onesize
counted_down hnd fl = record hnd {
  nfree = hnd.nfree - 1;
  nfree_min = min hnd.nfree_min (hnd.nfree - 1);
  fl = fl;
}

bump :
    (next : Links) (hnd : Onesize)
    → IsPool next hnd []
    → 0 < hnd.nfree
    → Returns (Allocated next hnd []) (allocate_popped (counted_down hnd hnd.fl) 0 next)
unfolding allocate_popped
bump next hnd v h =
    let room : (ltb hnd.nbump hnd.ntotal) ≡ true = ground (arith, v.counted, v.bumped) in
    rw room (record {
      free' = [];
      pool = record {
        list = v.list;
        blocks = tt;
        begins = v.begins;
        sized = v.sized;
        ends = v.ends;
        bumped = omega arith;
        counted = omega arith;
        least = omega arith;
        outside = v.outside;
      };
      owned = record { index = hnd.nbump; below = omega arith; at = refl; not_free = tt };
      new = λ o.
          let same = block-injective hnd hnd.nbump o.index v.sized o.at in
          absurd (omega (arith, o.below));
      others = λ q ne. (
        (λ o. record { index = o.index; below = omega (arith, o.below); at = o.at; not_free = tt }),
        (λ o.
            let other : o.index ≢ hnd.nbump = λ e. ne (o.at ∙ ap (block hnd) e) in
            record { index = o.index; below = omega (arith, o.below); at = o.at; not_free = tt }),
      );
      count = omega arith;
    })

reuse :
    (next next' : Links) (hnd : Onesize) (l : Slist) (f : ℕ) (fs : List ℕ)
    → IsPool next hnd (f ∷ fs)
    → 0 < hnd.nfree
    → Holds next' l fs
    → l.sentinel ≡ hnd.fl.sentinel
    → Returns (Allocated next hnd (f ∷ fs)) (allocate_popped (counted_down hnd l) f next')
unfolding allocate_popped
reuse next next' hnd l f fs v h g e =
    let (i, below, at) = v.blocks.0 in
    let hnd' = counted_down hnd l in
    let item : non_null f ≡ true = ground (arith, v.list.non_null.1.0) in
    let good : is_memptr_valid hnd' f ≡ true =
      rw at (block-valid hnd' i v.sized v.ends (omega (arith, v.bumped))) in
    let front = front-valid next' hnd' fs g v.blocks.1 v.sized v.ends v.bumped in
    rw (item, good, front)
      (record {
        free' = fs;
        pool = record {
          list = g;
          blocks = v.blocks.1;
          begins = v.begins;
          sized = v.sized;
          ends = v.ends;
          bumped = v.bumped;
          counted = omega (arith, v.counted);
          least = omega (arith, v.least);
          outside = λ j k. v.outside j (k ∙ e);
        };
        owned = record { index = i; below = below; at = at; not_free = v.list.distinct.1.0 };
        new = λ o. o.not_free.0 refl;
        others = λ q ne. (
          (λ o. record { index = o.index; below = o.below; at = o.at; not_free = o.not_free.1 }),
          (λ o. record {
            index = o.index;
            below = o.below;
            at = o.at;
            not_free = (ne, o.not_free);
          }),
        );
        count = omega arith;
      })

-- From a pool with more free blocks than the margin, am_onesize_allocate_x gives a block of the
-- pool that was not held, and keeps the invariant and all other holders.
pub allocate_x-Allocated :
    (next : Links) (hnd : Onesize) (free : List ℕ) (margin : ℕ)
    → IsPool next hnd free
    → margin < hnd.nfree
    → Returns (Allocated next hnd free) (allocate_x next hnd margin)
unfolding allocate_x
allocate_x-Allocated next hnd [] margin v h =
    let more : leb hnd.nfree margin ≡ false = ground arith in
    rw (more, pop_front-nil next hnd.fl v.list) (bump next hnd v (omega arith))
allocate_x-Allocated next hnd (f ∷ fs) margin v h =
    let more : leb hnd.nfree margin ≡ false = ground arith in
    rw more (
      Returns-bind _ _ (pop_front next hnd.fl) _ (pop_front-Holds next hnd.fl fs f v.list)
        λ (p, next', l) (e, g, same, _). rw e (reuse next next' hnd l f fs v (omega arith) g same))

-- Where no more blocks are free than the margin, am_onesize_allocate_x returns NULL and changes
-- nothing.
pub allocate_x_refused :
    (next : Links) (hnd : Onesize) (margin : ℕ)
    → hnd.nfree ≤ margin
    → allocate_x next hnd margin ≡ ok (0, next, hnd)
unfolding allocate_x
allocate_x_refused next hnd margin h =
    let less : leb hnd.nfree margin ≡ true = ground arith in rw less

-- am_onesize_allocate does not fail while a block is free.
pub allocate-Allocated :
    (next : Links) (hnd : Onesize) (free : List ℕ)
    → IsPool next hnd free
    → 0 < hnd.nfree
    → Returns (Allocated next hnd free) (allocate next hnd)
unfolding allocate
allocate-Allocated next hnd free v h =
    Returns-bind _ _ (allocate_x next hnd 0) _ (allocate_x-Allocated next hnd free 0 v h)
      λ (p, next', hnd') a.
        let o = a.owned in
        let item : non_null p ≡ true = ground (arith, a.pool.begins, o.at) in rw item a
