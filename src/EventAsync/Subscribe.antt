-- ===== src/EventAsync/Subscribe.antt =====
-- am_event_async_subscribe and its counterparts, on the sets of subscribers.
use amast.Common.{
  ℕ, ◌-◌, ◌≤◌, ◌<◌, ◌≡◌, ◌≢◌, refl, ap, arith, true, not, ◌&&◌, ◌||◌, ltb, leb, ◌==◌, Returns,
  check, ok,
}
use amast.Slist.{non_null}
use amast.Event.{evt_user}
use amast.EventLists.{AreBytes, on_list, add_handler_lem, take_handler_lem, take_from_all_lem}
use amast.EventAsync.{
  AsyncState, handlers_num_max, check_subscription, subscribe, unsubscribe, unsubscribe_all,
  unregister,
}

-- A subscription that am_event_async_subscribe and am_event_async_unsubscribe accept.
pub record IsAllowed (me : AsyncState) (handler_id event_id : ℕ) : Type 0 where
  pub handler_in : handler_id < handlers_num_max
  pub registered : (me.handlers handler_id).fn ≢ 0
  pub user_event : evt_user ≤ event_id
  pub enabled : me.has_sub ≡ true
  pub event_in : event_id - evt_user < me.nsub

check_subscription_passes :
    (me : AsyncState) (handler_id event_id : ℕ)
    → IsAllowed me handler_id event_id
    → check_subscription me handler_id event_id ≡ ok tt
unfolding check_subscription
check_subscription_passes me handler_id event_id a =
    let in_table : ltb handler_id handlers_num_max ≡ true = ground (arith, a.handler_in) in
    let some_fn : non_null (me.handlers handler_id).fn ≡ true = ground (arith, a.registered) in
    let user : leb evt_user event_id ≡ true = ground (arith, a.user_event) in
    let listed : ltb (event_id - evt_user) me.nsub ≡ true = ground (arith, a.event_in) in
    rw (in_table, some_fn, user, ap check a.enabled, listed) refl

-- A handler's subscription to an event is added to the lists, and no other changes.
pub subscribe-adds :
    (me : AsyncState) (h e : ℕ)
    → AreBytes me.sub
    → IsAllowed me h e
    → Returns
        (λ after.
          AreBytes after.sub
          × ((h' si : ℕ)
              → on_list after.sub h' si
                ≡ ((e - evt_user == si && h == h') || on_list me.sub h' si)))
        (subscribe me h e)
unfolding subscribe
subscribe-adds me h e v a =
    rw (check_subscription_passes me h e a) (add_handler_lem me.sub h (e - evt_user) v)

-- A handler's subscription to an event is taken from the lists, and no other changes.
pub unsubscribe-takes :
    (me : AsyncState) (h e : ℕ)
    → AreBytes me.sub
    → IsAllowed me h e
    → Returns
        (λ after.
          AreBytes after.sub
          × ((h' si : ℕ)
              → on_list after.sub h' si
                ≡ (not (e - evt_user == si && h == h') && on_list me.sub h' si)))
        (unsubscribe me h e)
unfolding unsubscribe
unsubscribe-takes me h e v a =
    rw (check_subscription_passes me h e a) (take_handler_lem me.sub h (e - evt_user) v)

-- Unsubscribing a registered handler from everything takes it from every list, and no other.
pub unsubscribe_all-clears :
    (me : AsyncState) (h : ℕ)
    → AreBytes me.sub
    → h < handlers_num_max
    → (me.handlers h).fn ≢ 0
    → Returns
        (λ after.
          AreBytes after.sub
          × ((h' si : ℕ)
              → on_list after.sub h' si ≡ (not (ltb si me.nsub && h == h') && on_list me.sub h' si))
          × ((after.handlers ≡ me.handlers) × (after.nsub ≡ me.nsub)))
        (unsubscribe_all me h)
unfolding unsubscribe_all
unsubscribe_all-clears me h v lt ne =
    let in_table : ltb h handlers_num_max ≡ true = ground arith in
    let some_fn : non_null (me.handlers h).fn ≡ true = ground arith in
    let (bytes, lists) = take_from_all_lem me.nsub me.sub h v in
    rw (in_table, some_fn) (bytes, lists, (refl, refl))

-- Unregistering a handler takes it from every list and frees its place in the table; no other
-- handler and no other subscription changes.
pub unregister-clears :
    (me : AsyncState) (h : ℕ)
    → AreBytes me.sub
    → h < handlers_num_max
    → (me.handlers h).fn ≢ 0
    → Returns
        (λ after.
          AreBytes after.sub
          × ((h' si : ℕ)
              → on_list after.sub h' si ≡ (not (ltb si me.nsub && h == h') && on_list me.sub h' si))
          × ((after.handlers h).fn ≡ 0)
          × ((h' : ℕ) → h ≢ h' → after.handlers h' ≡ me.handlers h'))
        (unregister me h)
unfolding unregister
unregister-clears me h v lt ne =
    let in_table : ltb h handlers_num_max ≡ true = ground arith in
    let some_fn : non_null (me.handlers h).fn ≡ true = ground arith in
    let (bytes, lists) = take_from_all_lem me.nsub me.sub h v in
    rw (in_table, some_fn) (bytes, lists, ground arith, λ h' other. ground arith)
