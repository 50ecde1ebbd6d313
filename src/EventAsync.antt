-- ===== src/EventAsync.antt =====
-- libs/event/event_async.c: handlers of asynchronous events, their subscriptions, and the delivery
-- of events to them. A handler's function is named by its address, as its context is; NULL is 0.
-- `call` runs the function at an address, on a context, an event and a policy; it works on the
-- memory and on a state `S` of its own, and leaves the subscriptions as they are. The critical
-- sections are the granularity of the model.
pub mod Subscribe
pub mod Publish
mod Examples
use amast.Common.{
  ℕ, zero, suc, ◌+◌, ◌-◌, ◌*◌, ◌/◌, ◌%◌, Bool, true, false, not, ◌||◌, ◌&&◌, ltb, leb, ◌==◌,
  if◌then◌else◌, Checked, ok, fault, check, ◌>>=◌, ◌>>◌, update, Option, none, some, set_bit,
  clear_bit, List, [], ◌∷◌,
}
use amast.Bit.{u8_msb}
use amast.EventLists.{Lists, add_handler, take_handler, take_from_all}
use amast.Slist.{non_null}
use amast.Event.{World, Event, evt_user, is_static, inc_ref_cnt, free}
use amast.EventQueue.{Policy}

-- struct am_event_async_handler
pub record Handler : Type 0 where
  pub fn : ℕ
  pub ctx : ℕ

-- struct am_event_async_state; `has_sub` and `alloc` say whether `sub` and `alloc` are not NULL.
pub record AsyncState : Type 0 where
  pub sub : Lists
  pub has_sub : Bool
  pub nsub : ℕ
  pub handlers : ℕ → Handler
  pub alloc : Bool

-- AM_EVT_HANDLERS_NUM_MAX, and the bytes of a subscription list
abbrev pub handlers_num_max : ℕ
handlers_num_max = 64

abbrev pub list_size : ℕ
list_size = (handlers_num_max + 7) / 8

-- am_event_async_global_init
pub global_init : Bool → ℕ → Bool → Checked AsyncState
global_init has_sub nsub alloc = do
  check (not (ltb 0 nsub) || has_sub)
  check (not has_sub || ltb 0 nsub)
  ok (record {
    sub = λ _ _. 0;
    has_sub = has_sub;
    nsub = nsub;
    handlers = λ _. record { fn = 0; ctx = 0 };
    alloc = alloc;
  })

abbrev pub is_pubsub_enabled : AsyncState → Bool
is_pubsub_enabled me = me.has_sub

-- what am_event_async_subscribe and am_event_async_unsubscribe assert
pub check_subscription : AsyncState → (handler_id event_id : ℕ) → Checked (Unit {0})
check_subscription me handler_id event_id = do
  check (ltb handler_id handlers_num_max)
  check (non_null (me.handlers handler_id).fn)
  check (leb evt_user event_id)
  check me.has_sub
  check (ltb (event_id - evt_user) me.nsub)

unfoldable pub subscribe : AsyncState → (handler_id event_id : ℕ) → Checked AsyncState
unfolding check_subscription
subscribe me handler_id event_id = do
  check_subscription me handler_id event_id
  ok (record me { sub = add_handler me.sub handler_id (event_id - evt_user) })

unfoldable pub unsubscribe : AsyncState → (handler_id event_id : ℕ) → Checked AsyncState
unfolding check_subscription
unsubscribe me handler_id event_id = do
  check_subscription me handler_id event_id
  ok (record me { sub = take_handler me.sub handler_id (event_id - evt_user) })

unfoldable pub unsubscribe_all : AsyncState → (handler_id : ℕ) → Checked AsyncState
unsubscribe_all me handler_id = do
  check (ltb handler_id handlers_num_max)
  check (non_null (me.handlers handler_id).fn)
  ok (record me { sub = take_from_all me.nsub me.sub handler_id })

unfoldable pub register_with_id : AsyncState → (fn ctx handler_id : ℕ) → Checked AsyncState
register_with_id me fn ctx handler_id = do
  check (non_null fn)
  check (ltb handler_id handlers_num_max)
  check (0 == (me.handlers handler_id).fn)
  ok (record me { handlers = update me.handlers handler_id (record { fn = fn; ctx = ctx }) })

unfoldable pub unregister : AsyncState → (handler_id : ℕ) → Checked AsyncState
unregister me handler_id = do
  check (ltb handler_id handlers_num_max)
  let sub = take_from_all me.nsub me.sub handler_id
  check (non_null (me.handlers handler_id).fn)
  ok (record me {
    sub = sub;
    handlers = update me.handlers handler_id (record { fn = 0; ctx = 0 });
  })

-- policy.exclude_id == ind
abbrev pub is_excluded : Policy → ℕ → Bool
is_excluded policy ind = is_id policy.exclude_id
  where
    is_id : Option ℕ → Bool
    is_id none = false
    is_id (some id) = id == ind

module _ {S : Type 0}
    (call : (fn ctx event : ℕ) → Policy → World → S → Checked (Bool × World × S)) where
  unfoldable pub post :
      AsyncState → (dest_id event : ℕ) → Policy → World → S → Checked (Bool × World × S)
  post me dest_id event policy w s = do
    check (ltb dest_id handlers_num_max)
    check (non_null event)
    check (leb evt_user (w.event event).id)
    let handler = me.handlers dest_id
    check (non_null handler.fn)
    call handler.fn handler.ctx event policy w s

  -- the delivery to one subscriber; `all` is the variable `all_published`.
  unfoldable pub deliver :
      AsyncState → (ind event : ℕ) → Policy → Bool × World × S → Checked (Bool × World × S)
  deliver me ind event policy (all, w, s) =
      let handler = me.handlers ind in
      let run = do
        (is_ok, w', s') ← call handler.fn handler.ctx event policy w s
        ok (is_ok && all, w', s')
      in if is_excluded policy ind
        then ok (all, w, s)
        else if non_null handler.fn
        then run
        else ok (all, w, s)

  -- the loop over the bits of one byte of the list, on fuel
  pub deliver_byte :
      ℕ → AsyncState → (i list event : ℕ) → Policy → Bool × World × S → Checked (Bool × World × S)
  deliver_byte zero me i list event policy r = fault
  deliver_byte (suc fuel) me i list event policy r =
      let msb = u8_msb list in
      let rest = do
        r' ← deliver me (8 * i + msb) event policy r
        deliver_byte fuel me i (clear_bit list msb) event policy r'
      in if list == 0 then ok r else rest

  -- The loop over the bytes of the list, from the last one down. A byte has at most eight bits.
  unfoldable pub deliver_bytes :
      ℕ
      → AsyncState
      → (ℕ → ℕ)
      → (event : ℕ) → Policy
      → Bool × World × S
      → Checked (Bool × World × S)
  unfolding deliver_byte
  deliver_bytes zero me sub event policy r = ok r
  deliver_bytes (suc i) me sub event policy r = do
    r' ← deliver_byte 9 me i (sub i) event policy r
    deliver_bytes i me sub event policy r'

  unfoldable pub publish :
      AsyncState → (event : ℕ) → Policy → World → S → Checked (Bool × World × S)
  publish me event policy w s = do
    check me.has_sub
    check (non_null event)
    check (leb evt_user (w.event event).id)
    let si = (w.event event).id - evt_user
    check (ltb si me.nsub)
    let hold_it = do check me.alloc; inc_ref_cnt w event
    w1 ← if is_static (w.event event) then ok w else hold_it
    (all, w2, s') ← deliver_bytes list_size me (me.sub si) event policy (true, w1, s)
    w3 ← free me.alloc w2 event
    ok (all, w3, s')
