-- ===== src/Timer/Arm.antt =====
-- am_timer_arm and am_timer_tick_iterator_init: an event is armed, and joins the running ones in the
-- next tick.
use native.Mathlib.Nat.{mod-eq_of_lt}
use amast.Common.{
  ℕ, ◌-◌, ◌/◌, ◌%◌, ◌^◌, max, ◌<◌, ◌≡◌, refl, sym, arith, true, false, ltb, Returns, Returns-value,
  List, [], ◌∷◌, ◌++◌, length, length-append, append-nil, update,
}
use amast.Slist.{push_back, append, is_empty, item_is_linked, iterator_init}
use amast.Slist.Chain.{Holds, Fresh, Fresh-append, last, Holds-update}
use amast.Slist.Insert.{push_back-Holds}
use amast.Slist.Append.{Apart, append-Holds, last-Fresh}
use amast.Timer.{Clock, may_own, arm, tick_iterator_init}
use amast.Timer.Next.{At}

-- The timer runs the events `xs`, and `ys` wait for the next tick.
pub record IsTimer (c : Clock) (xs ys : List ℕ) : Type 0 where
  pub events : Holds c.links c.timer.events xs
  pub pending : Holds c.links c.timer.events_pend ys
  pub apart : Apart (c.timer.events.sentinel ∷ xs) (c.timer.events_pend.sentinel ∷ ys)
  pub running : c.timer.running ≡ length xs
  pub pend : c.timer.pend ≡ length ys

-- am_timer_tick_iterator_init of a valid timer puts the iterator in front of the running events,
-- with those armed since the last tick behind them, in the order of their calls. None waits then.
pub tick_iterator_init-At :
    (c : Clock) (xs ys : List ℕ)
    → IsTimer c xs ys
    → let c' = tick_iterator_init c in
      At c' [] (xs ++ ys)
      × Holds c'.links c'.timer.events_pend []
      × (c'.timer.pend ≡ 0)
      × (c'.event ≡ c.event)
unfolding tick_iterator_init append iterator_init
tick_iterator_init-At c xs [] v =
    let empty : is_empty c.links c.timer.events_pend ≡ true =
      let z = v.pending.chain in ground arith in
    rw (append-nil, empty)
      (record { list = v.events; cur = refl; running = v.running }, v.pending, v.pend, refl)
tick_iterator_init-At c xs (y ∷ ys) v =
    let ne = v.pending.distinct.0.0 in
    let full : is_empty c.links c.timer.events_pend ≡ false =
      let z = v.pending.chain.0 in ground arith in
    let joined = rw full at (
      append-Holds c.links c.timer.events c.timer.events_pend xs (y ∷ ys) v.events v.pending
        v.apart) in
    rw full (
      record {
        list = joined.0;
        cur = refl;
        running = omega (arith, v.running, v.pend, length-append xs (y ∷ ys));
      },
      joined.1,
      refl,
      refl,
    )

Apart-snoc : (xs ys : List ℕ) (p : ℕ) → Apart xs ys → Fresh p xs → Apart xs (ys ++ (p ∷ []))
Apart-snoc [] ys p a f = tt
Apart-snoc (x ∷ xs) ys p a f =
    (Fresh-append x ys (p ∷ []) a.0 (λ e. f.0 (sym e), tt), Apart-snoc xs ys p a.1 f.1)

-- On a valid timer, with an owner that is NULL or the timer and an interval in range, an event
-- that is in no list is armed by am_timer_arm: it waits behind the others for the next tick, with
-- at least one tick to go, and the timer owns it. The running events are as before, and the timer
-- stays valid.
pub arm-Waiting :
    (c : Clock) (xs ys : List ℕ) (p ticks interval : ℕ)
    → IsTimer c xs ys
    → may_own c p ≡ true
    → interval < (2 ^ 32 - 1) / 2
    → item_is_linked c.links p ≡ false
    → Fresh p (c.timer.events.sentinel ∷ xs)
    → Fresh p (0 ∷ (c.timer.events_pend.sentinel ∷ ys))
    → Returns
        (λ c'.
          IsTimer c' xs (ys ++ (p ∷ []))
          × (c'.event
              ≡ update c.event p (record {
                owner = c.self;
                oneshot_ticks = max ticks 1;
                interval_ticks = interval;
                disarm_pending = false;
              })))
        (arm c p ticks interval)
unfolding arm
arm-Waiting c xs ys p ticks interval v own h free f g =
    let t = c.timer in
    let q = last t.events_pend.sentinel ys in
    let (r, pushed, (pending, same, links)) =
      Returns-value _ (push_back c.links t.events_pend p)
        (push_back-Holds c.links t.events_pend ys p v.pending g) in
    let low : ltb interval ((2 ^ 32 - 1) / 2) ≡ true = ground arith in
    let fits : interval % 2 ^ 31 ≡ interval = mod-eq_of_lt (omega arith) in
    let kept =
      Holds-update _ t.events xs q p (Holds-update c.links t.events xs p (c.links q) v.events f)
        (last-Fresh (t.events.sentinel ∷ xs) t.events_pend.sentinel ys v.apart) in
    let apart = Apart-snoc (t.events.sentinel ∷ xs) (t.events_pend.sentinel ∷ ys) p v.apart f in
    rw (own, low, free, pushed, fits)
      (
        record {
          events = rw links kept;
          pending = pending;
          apart = rw same apart;
          running = v.running;
          pend = omega (arith, v.pend, length-append ys (p ∷ []));
        },
        refl,
      )
