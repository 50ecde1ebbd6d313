-- ===== src/Timer/Examples.antt =====
-- A timer at address 1 that runs the events 100, which is to be disarmed, and 104, which is due in
-- the next tick and in every fifth from there on; 108 waits for the tick, and 112 is in no list.
use amast.Common.{◌≡◌, refl, arith, true, false, [], ◌∷◌, Returns, update}
use amast.Slist.{Links, item_is_linked}
use amast.Slist.Chain.{Holds}
use amast.Timer.{Clock, TimerEvent, tick_iterator_next}
use amast.Timer.Next.{At, Scanned, scan, tick_iterator_next-Scanned}
use amast.Timer.Arm.{IsTimer}

abbrev links : Links
links = update (update (update (update (update (λ _. 0) 8 100) 100 104) 104 8) 16 108) 108 16

abbrev off : TimerEvent
off = record { owner = 1; oneshot_ticks = 0; interval_ticks = 0; disarm_pending = true }

abbrev every_5 : TimerEvent
every_5 = record { owner = 1; oneshot_ticks = 1; interval_ticks = 5; disarm_pending = false }

abbrev later : TimerEvent
later = record { owner = 1; oneshot_ticks = 3; interval_ticks = 0; disarm_pending = false }

abbrev unused : TimerEvent
unused = record { owner = 0; oneshot_ticks = 0; interval_ticks = 0; disarm_pending = false }

abbrev clock : Clock
clock = record {
  self = 1;
  timer = record {
    events = record { sentinel = 8; back = 104 };
    events_pend = record { sentinel = 16; back = 108 };
    pend = 1;
    running = 2;
    it_cur = 8;
    it_prev = 0;
  };
  links = links;
  event = update (update (update (λ _. unused) 100 off) 104 every_5) 108 later;
}

running-Holds : Holds links clock.timer.events (100 ∷ 104 ∷ [])
running-Holds = ground arith

clock-IsTimer : IsTimer clock (100 ∷ 104 ∷ []) (108 ∷ [])
clock-IsTimer = record {
  events = running-Holds;
  pending = ground arith;
  apart = ground arith;
  running = refl;
  pend = refl;
}

clock-At : At clock [] (100 ∷ 104 ∷ [])
clock-At = record { list = running-Holds; cur = refl; running = refl }

tick_iterator_next-Scanned_example :
    Returns
      (λ (p, c'). Scanned (scan clock.event [] (100 ∷ 104 ∷ [])) p c')
      (tick_iterator_next clock)
tick_iterator_next-Scanned_example =
    tick_iterator_next-Scanned clock [] (100 ∷ 104 ∷ []) clock-At (refl, (refl, tt))

-- 104 is due
scan_test : (scan clock.event [] (100 ∷ 104 ∷ [])).due ≡ 104
unfolding scan
scan_test = refl

free_112 : item_is_linked links 112 ≡ false
unfolding item_is_linked
free_112 = refl
