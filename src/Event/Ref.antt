-- ===== src/Event/Ref.antt =====
-- Reference counting: am_event_inc_ref_cnt, am_event_dec_ref_cnt and am_event_free.
use amast.Common.{
  ℕ, ◌+◌, ◌-◌, ◌≤◌, ◌<◌, ◌≡◌, ◌≢◌, ap, fun_ext, arith, Bool, ltb, true, false, ok, ◌>>=◌, update,
}
use amast.Event.{
  Event, World, is_static, is_intact, set_event, free_unsafe, free, inc_ref_cnt, pools_num_max,
  ref_counter_max,
}

-- An event from a pool, whose identifier is intact and whose pool index is in range.
pub record IsPooled (e : Event) : Type 0 where
  pub dynamic : is_static e ≡ false
  pub indexed : e.pool_index_plus_one ≤ pools_num_max
  pub intact : is_intact e ≡ true

-- Neither counting up nor freeing touches a static event, whichever allocator is passed.
pub static_untouched :
    (alloc : Bool) (w : World) (p : ℕ)
    → p ≢ 0
    → is_static (w.event p) ≡ true
    → (inc_ref_cnt w p ≡ ok w) × (free alloc w p ≡ ok w)
unfolding inc_ref_cnt free free_unsafe
static_untouched alloc w p ne s = (ground arith, ground arith)

-- the event with `n` holders
abbrev pub counted : Event → ℕ → Event
counted e n = record e { ref_counter = n }

-- Counting up adds a holder, up to the counter's maximum.
pub inc_ref_cnt_lem :
    (w : World) (p : ℕ)
    → p ≢ 0
    → IsPooled (w.event p)
    → (w.event p).ref_counter < ref_counter_max
    → inc_ref_cnt w p ≡ ok (set_event w p (counted (w.event p) ((w.event p).ref_counter + 1)))
unfolding inc_ref_cnt
inc_ref_cnt_lem w p ne d lt = ground arith

-- Freeing an event with more than one holder takes one away.
pub free_shared :
    (w : World) (p : ℕ)
    → IsPooled (w.event p)
    → 1 < (w.event p).ref_counter
    → free_unsafe true w p ≡ ok (set_event w p (counted (w.event p) ((w.event p).ref_counter - 1)))
unfolding free_unsafe
free_shared w p d lt = ground arith

update-twice : {A : Type 0} (m : ℕ → A) (p : ℕ) (v u : A) → u ≡ m p → update (update m p v) p u ≡ m
update-twice m p v u e = fun_ext λ q. ground arith

pub update_self : {A : Type 0} (m : ℕ → A) (p : ℕ) (v : A) → update m p v p ≡ v
update_self m p v = ground arith

-- A pooled event that somebody holds: counting it up and then freeing it leaves the memory as it
-- was, while the counter is below its maximum.
pub free-inc_ref_cnt :
    (w : World) (p : ℕ)
    → p ≢ 0
    → IsPooled (w.event p)
    → 0 < (w.event p).ref_counter
    → (w.event p).ref_counter < ref_counter_max
    → (inc_ref_cnt w p >>= λ w'. free true w' p) ≡ ok w
unfolding free
free-inc_ref_cnt w p ne d pos lt =
    let e = w.event p in
    let e1 = counted e (e.ref_counter + 1) in
    let w1 = set_event w p e1 in
    let at : w1.event p ≡ e1 = update_self w.event p e1 in
    let d1 : IsPooled (w1.event p) =
      rw at (record { dynamic = d.dynamic; indexed = d.indexed; intact = d.intact }) in
    let more : 1 < (w1.event p).ref_counter = rw at (omega arith) in
    let item : ltb 0 p ≡ true = ground arith in
    let back : counted (w1.event p) ((w1.event p).ref_counter - 1) ≡ e = rw at (ground arith) in
    rw (inc_ref_cnt_lem w p ne d lt, item, free_shared w1 p d1 more)
      (ap (λ m. ok (record w { event = m })) (update-twice w.event p e1 _ back))
