-- ===== src/EventQueue.antt =====
-- libs/event/event_queue.c: a bounded ring of event pointers that counts references. Indices and
-- counts are C ints in [0, capacity]; a policy's margin, which the code asserts not to be
-- negative, is a number. The critical sections are the granularity of the model, so a call and its
-- `_unsafe` form are one function.
pub mod Ring
pub mod Valid
pub mod Push
pub mod Margin
pub mod Pop
pub mod Flush
pub mod Examples
use Ring.{ring}
use amast.Common.{
  ℕ, zero, suc, ◌+◌, ◌-◌, ◌%◌, Bool, true, false, not, ◌&&◌, ◌||◌, ltb, leb, ◌==◌, if◌then◌else◌,
  Checked, ok, fault, check, ◌>>=◌, ◌>>◌, update, min, List, [], ◌∷◌, ◌++◌, slice, Option, some,
}
use amast.Slist.{non_null}
use amast.Event.{World, Event, is_static, is_intact, set_event, free_unsafe, ref_counter_max}

-- struct am_event_queue; `alloc` says whether its allocator is not NULL.
pub record EventQueue : Type 0 where
  pub rd : ℕ
  pub wr : ℕ
  pub nfree : ℕ
  pub nfree_min : ℕ
  pub capacity : ℕ
  pub events : ℕ → ℕ
  pub alloc : Bool
  pub full : Bool
  pub init_called : Bool

-- struct am_event_queue_policy; `exclude_id` is none for AM_EVENT_PUBLISHER_ID_NONE.
pub record Policy : Type 0 where
  pub lifo : Bool
  pub margin : ℕ
  pub exclude_id : Option ℕ

-- a policy whose other fields C sets to zero
abbrev pub plain_policy : Bool → ℕ → Policy
plain_policy lifo margin = record { lifo = lifo; margin = margin; exclude_id = some 0 }

-- the return codes of the queue: AM_RC_ERR, AM_RC_OK and AM_RC_QUEUE_WAS_EMPTY
pub data Rc : Type 0 where
  rc_err rc_ok rc_queue_was_empty : Rc

unfoldable pub init : (ℕ → ℕ) → ℕ → Bool → Checked EventQueue
init events nevents alloc = do
  check (ltb 0 nevents)
  ok (record {
    rd = 0;
    wr = 0;
    nfree = nevents;
    nfree_min = nevents;
    capacity = nevents;
    events = events;
    alloc = alloc;
    full = false;
    init_called = true;
  })

abbrev pub is_empty : EventQueue → Bool
is_empty q = q.rd == q.wr && not q.full

-- memset to zero of an empty queue
unfoldable pub deinit : EventQueue → Checked EventQueue
deinit q = do
  check q.init_called
  check (is_empty q)
  ok (record {
    rd = 0;
    wr = 0;
    nfree = 0;
    nfree_min = 0;
    capacity = 0;
    events = λ _. 0;
    alloc = false;
    full = false;
    init_called = false;
  })

unfoldable pub get_nbusy : EventQueue → Checked ℕ
get_nbusy q = do check q.init_called; ok (q.capacity - q.nfree)

-- The first part of the result is the event, or NULL.
unfoldable pub pop_front : EventQueue → Checked (ℕ × EventQueue)
pop_front q = do
  check q.init_called
  if is_empty q
      then ok (0, q)
      else ok (
        q.events q.rd,
        record q { rd = (q.rd + 1) % q.capacity; full = false; nfree = q.nfree + 1 },
      )

-- the ring after an event is put in, and before the counts are updated
abbrev pub placed : EventQueue → ℕ → Bool → EventQueue
placed q event lifo =
    let rd = if ltb 0 q.rd then q.rd - 1 else q.capacity - 1 in
    let front = record q { rd = rd; events = update q.events rd event } in
    let back = record q { wr = (q.wr + 1) % q.capacity; events = update q.events q.wr event } in
    if lifo then front else back

abbrev pub counted : EventQueue → EventQueue
counted q = record q {
  full = q.wr == q.rd || q.full;
  nfree = q.nfree - 1;
  nfree_min = min (q.nfree - 1) q.nfree_min;
}

-- the counter of a pooled event goes up
unfoldable pub hold : World → ℕ → Checked World
hold w p =
    let e = w.event p in
    if is_static e then ok w else (do
      check (ltb e.ref_counter ref_counter_max)
      ok (set_event w p (record e { ref_counter = e.ref_counter + 1 })))

-- am_event_queue_push_unsafe
unfoldable pub push : World → EventQueue → ℕ → Policy → Checked (Rc × World × EventQueue)
push w q event policy =
    let e = w.event event in
    let refuse = do
      w' ← free_unsafe q.alloc w event
      check (ltb 0 policy.margin)
      ok (rc_err, w', q)
    in let accept = do
      check (ltb 0 q.nfree)
      check (not q.full)
      w' ← hold w event
      ok (
        if q.capacity == q.nfree then rc_queue_was_empty else rc_ok,
        w',
        counted (placed q event policy.lifo),
      )
      in do
        check q.init_called
        check (non_null event)
        check (ltb policy.margin q.capacity)
        check (is_static e || is_intact e)
        if leb q.nfree policy.margin then refuse else accept

pub push_back : World → EventQueue → ℕ → Checked (Rc × World × EventQueue)
unfolding push
push_back w q event = push w q event (plain_policy false 0)

pub push_front : World → EventQueue → ℕ → Checked (Rc × World × EventQueue)
unfolding push
push_front w q event = push w q event (plain_policy true 0)

-- `cb` is what the callback does to the memory, to the queue and to the rest of the program's
-- state; a NULL callback changes nothing.
unfoldable pub pop_front_with_cb {ℓ} :
    {S : Type ℓ}
    → (World → EventQueue → S → ℕ → Checked (World × EventQueue × S))
    → World
    → EventQueue
    → S
    → Checked (Rc × World × EventQueue × S)
pop_front_with_cb cb w q s = do
  (event, q') ← pop_front q
  let serve = do
    (w1, q1, s1) ← cb w q' s event
    check ((w.event event).id == (w1.event event).id)
    w2 ← if is_static (w1.event event) then ok w1 else free_unsafe q1.alloc w1 event
    ok (rc_ok, w2, q1, s1)
  if non_null event then serve else ok (rc_err, w, q', s)

-- The loop of am_event_queue_flush, on fuel: the number of events flushed so far is `cnt`.
pub flush_loop : ℕ → World → EventQueue → ℕ → Checked (ℕ × World × EventQueue)
unfolding pop_front
flush_loop zero w q cnt = fault
flush_loop (suc fuel) w q cnt = do
  (event, q') ← pop_front q
  let again = do
    check (leb (cnt + 1) q'.capacity)
    w' ← free_unsafe q'.alloc w event
    flush_loop fuel w' q' (cnt + 1)
  if non_null event then again else ok (cnt, w, q')

-- Each round empties a slot, and the last finds the queue empty.
pub flush : World → EventQueue → Checked (ℕ × World × EventQueue)
unfolding flush_loop
flush w q = flush_loop (q.capacity + 1) w q 0

abbrev pub nbusy : EventQueue → ℕ
nbusy q = q.capacity - q.nfree

-- The queued events, front first.
abbrev pub contents : EventQueue → List ℕ
contents q = ring q.events q.capacity q.rd (nbusy q)
