-- ===== src/Event/Release.antt =====
-- The last holder frees an event: its block goes back to its pool.
use amast.Common.{
  ℕ, ◌-◌, ◌≤◌, ◌≡◌, ◌≢◌, refl, sym, subst, arith, ltb, true, false, List, Returns, Returns-bind,
  Returns-value, Bool-cases, ◌<◌, ◌⊎◌, inl, inr, update,
}
use amast.Onesize.{Onesize}
use amast.Onesize
use amast.Onesize.Valid.{IsPool, IsOwned}
use amast.Onesize.Free.{Freed, free-Freed}
use amast.Event.{Event, World, release, free_unsafe, set_event}
use amast.Event.Ref.{IsPooled, counted, free_shared}

-- the pool that an event comes from
abbrev pub pool_of : Event → ℕ
pool_of e = e.pool_index_plus_one - 1

-- What the release of the event at `p` leaves: its block is free in its pool, and no other pool
-- descriptor, no other event header and no payload changes.
pub record Released (w : World) (p : ℕ) (fs : List ℕ) (w' : World) : Type 0 where
  pub pool :
      Freed w.links
        (w.alloc.pools (pool_of (w.event p)))
        fs
        p
        (w'.links, w'.alloc.pools (pool_of (w.event p)))
  pub pools : (k : ℕ) → k ≢ pool_of (w.event p) → w'.alloc.pools k ≡ w.alloc.pools k
  pub npools : w'.alloc.npools ≡ w.alloc.npools
  pub events : (q : ℕ) → q ≢ p → w'.event q ≡ w.event q
  pub payload : w'.payload ≡ w.payload

update_self : {A : Type 0} (m : ℕ → A) (p : ℕ) (v : A) → update m p v p ≡ v
update_self m p v = ground arith

pub release-Released :
    (w : World) (p : ℕ) (fs : List ℕ)
    → IsPool w.links (w.alloc.pools (pool_of (w.event p))) fs
    → IsOwned (w.alloc.pools (pool_of (w.event p))) fs p
    → Returns (Released w p fs) (release w p)
unfolding release
release-Released w p fs v o =
    let k = pool_of (w.event p) in
    Returns-bind _ _ (Onesize.free w.links (w.alloc.pools k) p) _
      (free-Freed w.links (w.alloc.pools k) fs p v o)
      λ (next, pool) f. record {
        pool =
            subst (λ h. Freed w.links (w.alloc.pools k) fs p (next, h))
              (sym (update_self w.alloc.pools k pool)) f;
        pools = λ j ne. ground arith;
        npools = refl;
        events = λ q ne. ground arith;
        payload = refl;
      }

-- am_event_free_unsafe of a pooled event that has at most one holder, whose block its valid pool
-- has given out, fails no assertion and returns the block to the pool.
pub free_last-Released :
    (w : World) (p : ℕ) (fs : List ℕ)
    → IsPooled (w.event p)
    → (w.event p).ref_counter ≤ 1
    → IsPool w.links (w.alloc.pools (pool_of (w.event p))) fs
    → IsOwned (w.alloc.pools (pool_of (w.event p))) fs p
    → Returns (Released w p fs) (free_unsafe true w p)
unfolding free_unsafe
free_last-Released w p fs d le v o =
    let last : ltb 1 (w.event p).ref_counter ≡ false = ground arith in
    let eq : free_unsafe true w p ≡ release w p = ground arith in
    rw eq (release-Released w p fs v o)

-- One holder less: while others hold the event, its counter is one lower and the rest of the memory
-- as before, and with the last one its block is back in its pool.
abbrev pub Dropped : (w : World) (p : ℕ) (fs : List ℕ) (w' : World) → Type 0
Dropped w p fs w' =
    let e = w.event p in
    ((1 < e.ref_counter) × (w' ≡ set_event w p (counted e (e.ref_counter - 1))))
    ⊎ ((e.ref_counter ≤ 1) × Released w p fs w')

pub free_unsafe-Dropped :
    (w : World) (p : ℕ) (fs : List ℕ)
    → IsPooled (w.event p)
    → IsPool w.links (w.alloc.pools (pool_of (w.event p))) fs
    → IsOwned (w.alloc.pools (pool_of (w.event p))) fs p
    → Returns (Dropped w p fs) (free_unsafe true w p)
free_unsafe-Dropped w p fs d v o = elim (Bool-cases (ltb 1 (w.event p).ref_counter)) [
  | inl more ↦
      let shared : 1 < (w.event p).ref_counter = ground arith in
      rw (free_shared w p d shared) (inl (shared, refl))
  | inr last ↦
      let le : (w.event p).ref_counter ≤ 1 = ground arith in
      let (w', e, released) =
        Returns-value _ (free_unsafe true w p) (free_last-Released w p fs d le v o) in
      rw e (inr (le, released))
]
