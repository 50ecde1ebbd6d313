-- ===== src/Onesize/Free.antt =====
-- am_onesize_free and am_onesize_free_all.
use amast.Common.{
  ℕ, ◌+◌, ◌≡◌, ◌≢◌, ◌∙◌, ◌↔◌, refl, sym, arith, List, [], ◌∷◌, Bool, true, false, ltb, ◌&&◌, ◌||◌,
  not, ◌==◌, Returns, Returns-bind,
}
use amast.Slist.{Links, Slist, peek_front, push_front, non_null}
use amast.Slist
use amast.Slist.Chain.{Fresh, Holds, init-Holds}
use amast.Slist.Insert.{push_front-Holds}
use amast.Onesize.{Onesize, is_memptr_valid, free, free_all}
use amast.Onesize.Count.{length-lt_of_fresh, length-Blocks}
use amast.Onesize.Valid.{IsPool, IsOwned, block-valid, front-valid}

-- What freeing `p` leaves: a pool in which nobody holds `p`, and all others hold what they held.
pub record Freed (next : Links) (hnd : Onesize) (free_items : List ℕ) (p : ℕ) (r : Links × Onesize)
    : Type 0 where
  pub pool : IsPool r.0 r.1 (p ∷ free_items)
  pub gone : ¬ IsOwned r.1 (p ∷ free_items) p
  pub others : (q : ℕ) → q ≢ p → IsOwned hnd free_items q ↔ IsOwned r.1 (p ∷ free_items) q
  pub count : r.1.nfree ≡ hnd.nfree + 1

-- the assertion that guards against a second free of the block that was freed last
front-other :
    (next : Links) (hnd : Onesize) (fs : List ℕ) (p : ℕ)
    → Holds next hnd.fl fs
    → Fresh p (hnd.fl.sentinel ∷ fs)
    → (not (non_null (peek_front next hnd.fl)) || not (peek_front next hnd.fl == p)) ≡ true
front-other next hnd [] p h f = ground arith
front-other next hnd (x ∷ fs) p h f =
    let front : next hnd.fl.sentinel ≡ x = h.chain.0 in
    let ne : p ≢ x = f.1.0 in
    let full : (next hnd.fl.sentinel == hnd.fl.sentinel) ≡ false = ground (arith, h.distinct.0.0) in
    rw (full, front) (ground arith)

or-and : (a b c : Bool) → (a || b) ≡ true → (a || c) ≡ true → (a || (b && c)) ≡ true
or-and a b c p q = ground arith

-- In a valid pool, freeing a block that is held fails no assertion, and makes it free.
pub free-Freed :
    (next : Links) (hnd : Onesize) (fs : List ℕ) (p : ℕ)
    → IsPool next hnd fs
    → IsOwned hnd fs p
    → Returns (Freed next hnd fs p) (free next hnd p)
unfolding free
free-Freed next hnd fs p v o =
    let i = o.index in
    let few =
      length-lt_of_fresh hnd.pool_beg hnd.block_size hnd.nbump i p fs v.list.distinct.1 v.blocks
        o.below o.at o.not_free in
    let room : ltb hnd.nfree hnd.ntotal ≡ true = ground (arith, v.counted, v.bumped) in
    let away : p ≢ hnd.fl.sentinel = λ e. v.outside i (sym o.at ∙ e) in
    let item : non_null p ≡ true = ground (arith, o.at, v.begins) in
    let some_p : p ≢ 0 = ground arith in
    let good : is_memptr_valid hnd p ≡ true =
      rw o.at (block-valid hnd i v.sized v.ends (omega (arith, o.below, v.bumped))) in
    let head =
      or-and (not (non_null (peek_front next hnd.fl))) _ _
        (front-other next hnd fs p v.list (away, o.not_free))
        (front-valid next hnd fs v.list v.blocks v.sized v.ends v.bumped) in
    rw (item, good, head, room)
      (Returns-bind _ _ (push_front next hnd.fl p) _
        (push_front-Holds next hnd.fl fs p v.list (some_p, (away, o.not_free)))
        λ (next', l) (h, same, _). record {
          pool = record {
            list = h;
            blocks = ((i, o.below, o.at), v.blocks);
            begins = v.begins;
            sized = v.sized;
            ends = v.ends;
            bumped = v.bumped;
            counted = omega (arith, v.counted);
            least = omega (arith, v.least);
            outside = λ j k. v.outside j (k ∙ same);
          };
          gone = λ q. q.not_free.0 refl;
          others = λ q ne. (
            (λ u. record {
              index = u.index;
              below = u.below;
              at = u.at;
              not_free = (ne, u.not_free);
            }),
            (λ u. record { index = u.index; below = u.below; at = u.at; not_free = u.not_free.1 }),
          );
          count = refl;
        })

-- am_onesize_free_all of a valid pool leaves a valid pool in which all blocks count as free and
-- nobody holds one.
pub free_all-IsPool :
    (next : Links) (hnd : Onesize) (fs : List ℕ)
    → IsPool next hnd fs
    → let (next', hnd') = free_all next hnd in
      IsPool next' hnd' [] × (hnd'.nfree ≡ hnd.ntotal) × ((p : ℕ) → ¬ IsOwned hnd' [] p)
unfolding free_all Slist.init
free_all-IsPool next hnd fs v = (
  record {
    list = init-Holds next hnd.fl (ground (arith, v.list.non_null.0));
    blocks = tt;
    begins = v.begins;
    sized = v.sized;
    ends = v.ends;
    bumped = omega arith;
    counted = omega arith;
    least = omega (
      arith,
      v.least,
      v.counted,
      length-Blocks hnd.pool_beg hnd.block_size hnd.nbump fs v.list.distinct.1 v.blocks,
    );
    outside = v.outside;
  },
  refl,
  λ p o. absurd (omega (arith, o.below)),
)
