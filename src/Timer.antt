-- ===== src/Timer.antt =====
-- libs/timer/timer.c: events that are due after a number of ticks. An event is named by the address
-- of its list item, and the links of all items are one map. The iterator's pointer to a list is
-- always to `events`, so only its two positions are in the record. NULL is 0. A critical section
-- is one step.
pub mod Next
pub mod Arm
mod Examples
use amast.Common.{
  ℕ, zero, suc, ◌+◌, ◌-◌, ◌%◌, ◌/◌, ◌^◌, max, Bool, true, false, not, ◌&&◌, ◌||◌, ltb, leb, ◌==◌,
  if◌then◌else◌, Checked, ok, fault, check, ◌>>=◌, ◌>>◌, update,
}
use amast.Slist
use amast.Slist.{
  Links, Slist, non_null, is_empty, push_back, append, item_is_linked, iterator_init, iterator_next,
  iterator_pop,
}

-- struct am_timer_event
pub record TimerEvent : Type 0 where
  pub owner : ℕ
  pub oneshot_ticks : ℕ
  pub interval_ticks : ℕ
  pub disarm_pending : Bool

-- struct am_timer
pub record Timer : Type 0 where
  pub events : Slist
  pub events_pend : Slist
  pub pend : ℕ
  pub running : ℕ
  pub it_cur : ℕ
  pub it_prev : ℕ

-- the memory that a timer at the address `self` works on
pub record Clock : Type 0 where
  pub self : ℕ
  pub timer : Timer
  pub links : Links
  pub event : ℕ → TimerEvent

abbrev pub set_event : Clock → ℕ → TimerEvent → Clock
set_event c p e = record c { event = update c.event p e }

-- the assertion on the owner
abbrev pub may_own : Clock → ℕ → Bool
may_own c p = (c.event p).owner == 0 || (c.event p).owner == c.self

-- `events` and `events_pend` are the addresses of the two lists' sentinels.
pub init : (self : ℕ) → Links → (ℕ → TimerEvent) → (events events_pend : ℕ) → Clock
init self next event events events_pend =
    let (next1, running) = Slist.init next (record { sentinel = events; back = 0 }) in
    let (next2, pend) = Slist.init next1 (record { sentinel = events_pend; back = 0 }) in
    record {
      self = self;
      timer = record {
        events = running;
        events_pend = pend;
        pend = 0;
        running = 0;
        it_cur = 0;
        it_prev = 0;
      };
      links = next2;
      event = event;
    }

pub arm : Clock → (p ticks interval : ℕ) → Checked Clock
arm c p ticks interval = do
  check (may_own c p)
  check (ltb interval ((2 ^ 32 - 1) / 2))
  let armed = set_event c p (record {
    owner = c.self;
    oneshot_ticks = max ticks 1;
    interval_ticks = interval % 2 ^ 31;
    disarm_pending = false;
  })
  let queued = do
    (next, pend) ← push_back c.links c.timer.events_pend p
    ok (record armed {
      links = next;
      timer = record c.timer { events_pend = pend; pend = c.timer.pend + 1 };
    })
  if item_is_linked c.links p then ok armed else queued

-- The first part of the result tells whether the event was armed.
pub disarm : Clock → ℕ → Checked (Bool × Clock)
disarm c p = do
  check (may_own c p)
  let e = c.event p
  let owned = e.owner == c.self
  let off =
      set_event c p (record e { oneshot_ticks = 0; interval_ticks = 0; disarm_pending = true })
  ok (owned && not e.disarm_pending, if owned then off else c)

pub is_armed : Clock → ℕ → Checked Bool
is_armed c p = do
  check (may_own c p)
  let e = c.event p
  ok ((item_is_linked c.links p && e.owner == c.self) && not e.disarm_pending)

pub tick_iterator_init : Clock → Clock
tick_iterator_init c =
    let it = iterator_init c.timer.events in
    let timer = record c.timer { it_cur = it.cur; it_prev = it.prev } in
    let (next, events, pend) = append c.links timer.events timer.events_pend in
    let joined = record timer {
      events = events;
      events_pend = pend;
      running = timer.running + timer.pend;
      pend = 0;
    } in
    if is_empty c.links timer.events_pend
    then record c { timer = timer }
    else record c { timer = joined; links = next }

-- am_slist_iterator_pop, the owner, and the count of running events
pub remove : Clock → ℕ → Checked Clock
remove c p = do
  let t = c.timer
  (q, next, it) ←
      iterator_pop c.links (record { list = t.events; cur = t.it_cur; prev = t.it_prev })
  check (ltb 0 t.running)
  ok (record c {
    links = next;
    timer = record t {
      events = it.list;
      it_cur = it.cur;
      it_prev = it.prev;
      running = t.running - 1;
    };
    event = update c.event p (record (c.event p) { owner = 0 });
  })

-- the end of the loop: a tick of an event that is due
abbrev pub fire : Clock → ℕ → Checked (ℕ × Clock)
fire c p =
    let e = c.event p in
    let reload = set_event c p (record e { oneshot_ticks = e.interval_ticks }) in
    let last = do c' ← remove c p; ok (p, c')
    in if ltb 0 e.interval_ticks then ok (p, reload) else last

-- The loop of am_timer_tick_iterator_next, on fuel. The result is the event that is due, or NULL.
pub next_loop : ℕ → Clock → (nevents : ℕ) → Checked (ℕ × Clock)
next_loop zero c nevents = fault
next_loop (suc fuel) c nevents = do
  let t = c.timer
  (p, it) ← iterator_next c.links (record { list = t.events; cur = t.it_cur; prev = t.it_prev })
  let e = c.event p
  let c1 = record c { timer = record t { it_cur = it.cur; it_prev = it.prev } }
  let ticked = set_event c1 p (record e { oneshot_ticks = e.oneshot_ticks - 1 })
  let gone = do
    c2 ← remove (set_event c1 p (record e { disarm_pending = false })) p
    next_loop fuel c2 (nevents - 1)
  let later = next_loop fuel ticked (nevents - 1)
  let tick =
      check (ltb 0 e.oneshot_ticks)
      >> (if ltb 0 (e.oneshot_ticks - 1) then later else fire ticked p)
  let round = check (ltb 0 nevents) >> (if e.disarm_pending then gone else tick)
  if non_null p then round else ok (0, c1)

-- A round for each event that is running, and one for the end of the list.
pub tick_iterator_next : Clock → Checked (ℕ × Clock)
tick_iterator_next c = next_loop (c.timer.running + 1) c c.timer.running

pub is_empty_unsafe : Clock → Bool
is_empty_unsafe c = is_empty c.links c.timer.events && is_empty c.links c.timer.events_pend

pub get_ticks : Clock → ℕ → Checked ℕ
get_ticks c p = do
  check (may_own c p)
  let e = c.event p
  ok (if e.owner == c.self then e.oneshot_ticks else 0)
