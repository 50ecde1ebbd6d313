-- ===== src/EventSync.antt =====
-- libs/event/event_sync.c: hubs of handlers that are called at once when an event is posted or
-- published. A handler's function is named by its address, as its context and the buffer for its
-- answer are; NULL is 0, and as an observer 0 is am_event_sync_observer_nil. `call` and `observe`
-- run the functions at an address. A handler may use the hub that calls it, and change the memory
-- and a state `S` of its own.
pub mod Register
pub mod Order
mod Examples
use amast.Common.{
  ℕ, zero, suc, ◌+◌, ◌-◌, ◌*◌, Bool, true, false, not, ◌||◌, ◌&&◌, ltb, leb, ◌==◌, if◌then◌else◌,
  Checked, ok, fault, check, ◌>>=◌, ◌>>◌, update, clear_bit,
}
use amast.Bit.{u8_msb}
use amast.Slist.{non_null}
use amast.Event.{World, evt_user}
use amast.EventLists.{Lists, add_handler, take_handler, take_from_all}
use amast.EventAsync.{Handler, handlers_num_max, list_size}

-- struct am_event_sync_hub; `has_sub` says whether `sub` is not NULL.
pub record SyncHub : Type 0 where
  pub sub : Lists
  pub has_sub : Bool
  pub nsub : ℕ
  pub handlers : ℕ → Handler
  pub recursion_count : ℕ
  pub observer_cb : ℕ

-- AM_SYNC_RECURSION_MAX
abbrev pub recursion_max : ℕ
recursion_max = 16

-- am_event_sync_init
pub init : Bool → ℕ → Checked SyncHub
init has_sub nsub = do
  check (not has_sub || ltb 0 nsub)
  ok (record {
    sub = λ _ _. 0;
    has_sub = has_sub;
    nsub = nsub;
    handlers = λ _. record { fn = 0; ctx = 0 };
    recursion_count = 0;
    observer_cb = 0;
  })

abbrev pub is_pubsub_enabled : SyncHub → Bool
is_pubsub_enabled hub = hub.has_sub

-- what am_event_sync_subscribe and am_event_sync_unsubscribe assert
pub check_subscription : SyncHub → (handler_id event_id : ℕ) → Checked (Unit {0})
check_subscription hub handler_id event_id = do
  check hub.has_sub
  check (ltb handler_id handlers_num_max)
  check (non_null (hub.handlers handler_id).fn)
  check (leb evt_user event_id)
  check (ltb (event_id - evt_user) hub.nsub)

pub subscribe : SyncHub → (handler_id event_id : ℕ) → Checked SyncHub
unfolding check_subscription
subscribe hub handler_id event_id = do
  check_subscription hub handler_id event_id
  ok (record hub { sub = add_handler hub.sub handler_id (event_id - evt_user) })

pub unsubscribe : SyncHub → (handler_id event_id : ℕ) → Checked SyncHub
unfolding check_subscription
unsubscribe hub handler_id event_id = do
  check_subscription hub handler_id event_id
  ok (record hub { sub = take_handler hub.sub handler_id (event_id - evt_user) })

pub unsubscribe_all : SyncHub → (handler_id : ℕ) → Checked SyncHub
unsubscribe_all hub handler_id = do
  check hub.has_sub
  check (ltb handler_id handlers_num_max)
  check (non_null (hub.handlers handler_id).fn)
  ok (record hub { sub = take_from_all hub.nsub hub.sub handler_id })

abbrev pub set_handler : SyncHub → (handler_id : ℕ) → Handler → SyncHub
set_handler hub handler_id handler = record hub {
  handlers = update hub.handlers handler_id handler;
}

-- the loop of am_event_sync_register over the `n` places from `i` on; behind the last one is
-- AM_ASSERT(0).
pub register_loop : ℕ → ℕ → SyncHub → (fn ctx : ℕ) → Checked (ℕ × SyncHub)
register_loop zero i hub fn ctx = fault
register_loop (suc n) i hub fn ctx =
    let next = register_loop n (suc i) hub fn ctx in
    if 0 == (hub.handlers i).fn
    then ok (i, set_handler hub i (record { fn = fn; ctx = ctx }))
    else next

-- The first part of the result is the handler's number.
pub register : SyncHub → (fn ctx : ℕ) → Checked (ℕ × SyncHub)
unfolding register_loop
register hub fn ctx = do check (non_null fn); register_loop handlers_num_max 0 hub fn ctx

pub unregister : SyncHub → (handler_id : ℕ) → Checked SyncHub
unfolding unsubscribe_all
unregister hub handler_id = do
  check (ltb handler_id handlers_num_max)
  check (non_null (hub.handlers handler_id).fn)
  hub' ← if hub.has_sub then unsubscribe_all hub handler_id else ok hub
  ok (set_handler hub' handler_id (record { fn = 0; ctx = 0 }))

-- am_event_sync_observe, where NULL stands for the observer that does nothing
abbrev pub observe_with : SyncHub → (fn : ℕ) → SyncHub
observe_with hub fn = record hub { observer_cb = fn }

-- The counter of nested calls: it goes up before handlers are called and down behind them, and
-- what they call leaves it as it was, so that it is not 0 when it goes down.
abbrev pub deeper : SyncHub → SyncHub
deeper hub = record hub { recursion_count = hub.recursion_count + 1 }

abbrev pub shallower : SyncHub → SyncHub
shallower hub = record hub { recursion_count = hub.recursion_count - 1 }

module _ {S : Type 0}
    (call : (fn ctx event out out_size : ℕ)
      → SyncHub
      → World
      → S
      → Checked (Bool × SyncHub × World × S))
    (observe : (fn handler_id event : ℕ) → S → S) where
  -- the call of hub->observer_cb
  abbrev pub observed : SyncHub → (handler_id event : ℕ) → S → S
  observed hub handler_id event s =
      if 0 == hub.observer_cb then s else observe hub.observer_cb handler_id event s

  pub post_request :
      (dest_id event out out_size : ℕ) → SyncHub → World → S → Checked (Bool × SyncHub × World × S)
  post_request dest_id event out out_size hub w s = do
    check (ltb hub.recursion_count recursion_max)
    check (ltb dest_id handlers_num_max)
    let handler = hub.handlers dest_id
    check (non_null handler.fn)
    check (non_null event)
    let s1 = observed hub dest_id event s
    (ret, hub', w', s') ← call handler.fn handler.ctx event out out_size (deeper hub) w s1
    ok (ret, shallower hub', w', s')

  pub post : (dest_id event : ℕ) → SyncHub → World → S → Checked (Bool × SyncHub × World × S)
  unfolding post_request
  post dest_id event hub w s = post_request dest_id event 0 0 hub w s

  -- the call of one subscriber; `all` is the variable `all_published`.
  pub deliver :
      (handler_id event out out_size : ℕ)
      → Bool × SyncHub × World × S
      → Checked (Bool × SyncHub × World × S)
  deliver handler_id event out out_size (all, hub, w, s) = do
    let s1 = observed hub handler_id event s
    let handler = hub.handlers handler_id
    check (non_null handler.fn)
    (is_ok, hub', w', s') ← call handler.fn handler.ctx event out out_size hub w s1
    ok (is_ok && all, hub', w', s')

  -- the loop over the bits of byte `i` of the list, on fuel
  pub deliver_byte :
      ℕ
      → (i list event out out_size : ℕ) → Bool × SyncHub × World × S
      → Checked (Bool × SyncHub × World × S)
  unfolding deliver
  deliver_byte zero i list event out out_size r = fault
  deliver_byte (suc fuel) i list event out out_size r =
      let msb = u8_msb list in
      let rest = do
        r' ← deliver (8 * i + msb) event out out_size r
        deliver_byte fuel i (clear_bit list msb) event out out_size r'
      in if list == 0 then ok r else rest

  -- The loop over the `n` bytes of the list from byte `i` on. A byte has at most eight bits.
  pub deliver_bytes :
      ℕ
      → (i : ℕ) → (ℕ → ℕ)
      → (event out out_size : ℕ) → Bool × SyncHub × World × S
      → Checked (Bool × SyncHub × World × S)
  unfolding deliver_byte
  deliver_bytes zero i sub event out out_size r = ok r
  deliver_bytes (suc n) i sub event out out_size r = do
    r' ← deliver_byte 9 i (sub i) event out out_size r
    deliver_bytes n (suc i) sub event out out_size r'

  pub publish_request :
      (event out out_size : ℕ) → SyncHub → World → S → Checked (Bool × SyncHub × World × S)
  unfolding deliver_bytes
  publish_request event out out_size hub w s = do
    check hub.has_sub
    check (ltb hub.recursion_count recursion_max)
    check (non_null event)
    check (leb evt_user (w.event event).id)
    let si = (w.event event).id - evt_user
    check (ltb si hub.nsub)
    (all, hub', w', s') ←
        deliver_bytes list_size 0 (hub.sub si) event out out_size (true, deeper hub, w, s)
    ok (all, shallower hub', w', s')

  pub publish : (event : ℕ) → SyncHub → World → S → Checked (Bool × SyncHub × World × S)
  unfolding publish_request
  publish event hub w s = publish_request event 0 0 hub w s
