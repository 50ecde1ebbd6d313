-- ===== src/Event/Allocate.antt =====
-- am_event_allocate_x: the pool it takes, and the event it gives.
use amast.Common.{
  ℕ, ◌+◌, ◌-◌, ◌≤◌, ◌<◌, ◌≡◌, ◌≢◌, ◌⊎◌, inl, inr, refl, sym, subst, arith, Bool-cases, ltb, leb,
  ◌^◌, true, List, ok, Returns, Returns-bind, ◌>>=◌, if◌then◌else◌, update,
}
use amast.Slist.{non_null}
use amast.Onesize.{Onesize}
use amast.Onesize
use amast.Onesize.Valid.{IsPool}
use amast.Onesize.Allocate.{Allocated, allocate_x-Allocated, allocate_x_refused}
use amast.Event.{
  World, set_event, allocate_x, set_pool, search_pool, new_event, evt_user, pool_index_max,
}
use amast.Event.Ref.{IsPooled}
use amast.Event.Search.{IsFirstFit, search_pool-IsFirstFit}

-- the block size of each pool
abbrev pub sizes : World → ℕ → ℕ
sizes w i = (w.alloc.pools i).block_size

-- The pools are valid, with their free lists `fs`, and ordered by their block sizes.
pub record IsReady (w : World) (fs : ℕ → List ℕ) : Type 0 where
  pub some_pool : 0 < w.alloc.npools
  pub few : w.alloc.npools ≤ pool_index_max
  pub ascending : (i j : ℕ) → i < j → j ≤ w.alloc.npools - 1 → sizes w i < sizes w j
  pub pools : (k : ℕ) → k ≤ w.alloc.npools - 1 → IsPool w.links (w.alloc.pools k) (fs k)

-- What the call leaves, with `k` the first pool whose blocks are large enough: either that pool
-- has no more free blocks than the margin, the result is NULL and nothing has changed; or the
-- result is a new block of that pool with a fresh header, and no other event or pool changed.
pub record Taken (w : World) (fs : ℕ → List ℕ) (id size margin : ℕ) (r : ℕ × World) : Type 0 where
  pub k : ℕ
  pub first : IsFirstFit (sizes w) size (w.alloc.npools - 1) k
  pub given :
      ((w.alloc.pools k).nfree ≤ margin × (r.0 ≡ 0) × (r.1.event ≡ w.event) × (r.1.links ≡ w.links))
      ⊎ (margin < (w.alloc.pools k).nfree
          × Allocated w.links (w.alloc.pools k) (fs k) (r.0, r.1.links, r.1.alloc.pools k)
          × (r.1.event r.0 ≡ new_event id k))
  pub pools : (j : ℕ) → j ≢ k → r.1.alloc.pools j ≡ w.alloc.pools j
  pub events : (q : ℕ) → q ≢ r.0 → r.1.event q ≡ w.event q

update_self : {A : Type 0} (m : ℕ → A) (p : ℕ) (v : A) → update m p v p ≡ v
update_self m p v = ground arith

-- the part of am_event_allocate_x behind the search
taken :
    (w : World) (fs : ℕ → List ℕ) (id size margin k : ℕ)
    → IsPool w.links (w.alloc.pools k) (fs k)
    → IsFirstFit (sizes w) size (w.alloc.npools - 1) k
    → Returns (Taken w fs id size margin) (
        Onesize.allocate_x w.links (w.alloc.pools k) margin >>= λ (p, next, pool).
        let w' = set_pool w k next pool in
        ok (if non_null p then (p, set_event w' p (new_event id k)) else (0, w')))
taken w fs id size margin k v f = elim (Bool-cases (leb (w.alloc.pools k).nfree margin)) [
  | inl e ↦ rw (allocate_x_refused w.links (w.alloc.pools k) margin (ground arith)) (record {
    k = k;
    first = f;
    given = inl (ground arith, refl, refl, refl);
    pools = λ j ne. ground arith;
    events = λ q ne. refl;
  })
  | inr e ↦
      Returns-bind _ _ (Onesize.allocate_x w.links (w.alloc.pools k) margin) _
        (allocate_x-Allocated w.links (w.alloc.pools k) (fs k) margin v (ground arith))
        λ (p, next, pool) a.
          let item : non_null p ≡ true = ground (arith, a.pool.begins, a.owned.at) in
          let w' = set_pool w k next pool in
          rw item (record {
            k = k;
            first = f;
            given = inr (
              ground arith,
              subst (λ h. Allocated w.links (w.alloc.pools k) (fs k) (p, next, h))
                  (sym (update_self w.alloc.pools k pool)) a,
              update_self w'.event p (new_event id k),
            );
            pools = λ j ne. ground arith;
            events = λ q ne. ground arith;
          })
]

-- With valid pools in ascending order of their block sizes, and a size that fits the largest,
-- am_event_allocate_x fails no assertion for a user event. It takes the first pool that is large
-- enough, and gives NULL just when that pool has no more free blocks than the margin.
pub allocate_x-Taken :
    (w : World) (fs : ℕ → List ℕ) (id size margin : ℕ)
    → IsReady w fs
    → evt_user ≤ id
    → 0 < size
    → size ≤ sizes w (w.alloc.npools - 1)
    → Returns (Taken w fs id size margin) (allocate_x w id size margin)
unfolding allocate_x
allocate_x-Taken w fs id size margin v u pos top =
    let a1 : ltb 0 size ≡ true = ground arith in
    let a2 : ltb 0 w.alloc.npools ≡ true = ground (arith, v.some_pool) in
    let a3 : leb w.alloc.npools pool_index_max ≡ true = ground (arith, v.few) in
    let a4 : leb size (sizes w (w.alloc.npools - 1)) ≡ true = ground arith in
    let a5 : leb evt_user id ≡ true = ground arith in
    rw (a1, a2, a3, a4, a5)
      (Returns-bind _ _ (search_pool (w.alloc.npools + 1) (sizes w) size 0 (w.alloc.npools - 1)) _
        (search_pool-IsFirstFit (sizes w) size (w.alloc.npools - 1) v.ascending (w.alloc.npools + 1)
          0 (w.alloc.npools - 1) (omega arith) (omega arith) (omega arith)
          (λ j h. absurd (omega arith)) top)
        λ k f. taken w fs id size margin k (v.pools k f.below) f)

-- The header of a new event: not static, intact, with no holder, and with the identifier asked
-- for, if that fits 16 bits.
pub new_event-IsPooled :
    (id k : ℕ)
    → k < 3
    → id < 2 ^ 16
    → IsPooled (new_event id k)
      × ((new_event id k).id ≡ id)
      × ((new_event id k).ref_counter ≡ 0)
      × ((new_event id k).pool_index_plus_one ≡ k + 1)
new_event-IsPooled id k h g = ground arith
