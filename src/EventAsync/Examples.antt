-- ===== src/EventAsync/Examples.antt =====
-- A table with handlers 3 and 9, which are subscribed to the events with identifier 9, as is 12,
-- which is not registered. A handler notes its context, and the one at 2 refuses.
use amast.Common.{
  ℕ, ◌-◌, ◌≡◌, ◌≢◌, refl, arith, Bool, true, false, not, ◌&&◌, ◌||◌, ltb, ◌==◌, if◌then◌else◌,
  Checked, ok, check, ◌>>◌, ◌>>=◌, List, [], ◌∷◌, Returns, update, none, some, has_bit, clear_bit,
}
use amast.Event.{World, evt_user, is_static, inc_ref_cnt, free, free_unsafe}
use amast.Bit.{u8_msb}
use amast.Event.Examples.{world}
use amast.EventQueue.{Policy}
use amast.EventLists.{AreBytes, on_list, subscribers}
use amast.EventAsync.{AsyncState, subscribe, unregister, publish, deliver, deliver_bytes}
use amast.EventAsync.Subscribe.{IsAllowed, subscribe-adds, unregister-clears}
use amast.EventAsync.Publish.{receivers, call_each, publish-call_each}

abbrev hub : AsyncState
hub = record {
  sub = update (λ _ _. 0) 5 (update (update (λ _. 0) 0 8) 1 18);
  has_sub = true;
  nsub = 10;
  handlers =
      update (update (λ _. record { fn = 0; ctx = 0 }) 3 (record { fn = 1; ctx = 30 })) 9
        (record { fn = 2; ctx = 90 });
  alloc = false;
}

hub-AreBytes : AreBytes hub.sub
hub-AreBytes si li = ground arith

note : (fn ctx event : ℕ) → Policy → World → List ℕ → Checked (Bool × World × List ℕ)
note fn ctx event policy w log = ok (fn == 1, w, ctx ∷ log)

abbrev to_all : Policy
to_all = record { lifo = false; margin = 0; exclude_id = none }

handler_9-IsAllowed : IsAllowed hub 9 6
handler_9-IsAllowed = record {
  handler_in = omega arith;
  registered = omega arith;
  user_event = omega arith;
  enabled = refl;
  event_in = omega arith;
}

subscribe-adds_example :
    Returns
      (λ after.
        AreBytes after.sub
        × ((h si : ℕ)
            → on_list after.sub h si ≡ ((6 - evt_user == si && 9 == h) || on_list hub.sub h si)))
      (subscribe hub 9 6)
subscribe-adds_example = subscribe-adds hub 9 6 hub-AreBytes handler_9-IsAllowed

unregister-clears_example :
    Returns
      (λ after.
        AreBytes after.sub
        × ((h si : ℕ)
            → on_list after.sub h si ≡ (not (ltb si 10 && 9 == h) && on_list hub.sub h si))
        × ((after.handlers 9).fn ≡ 0)
        × ((h : ℕ) → 9 ≢ h → after.handlers h ≡ hub.handlers h))
      (unregister hub 9)
unregister-clears_example = unregister-clears hub 9 hub-AreBytes (omega arith) (omega arith)

publish-call_each_example : publish note hub 7 to_all world [] ≡ (
    (if is_static (world.event 7) then ok world else (check false >> inc_ref_cnt world 7)) >>= λ w1.
    call_each note hub (receivers hub to_all (subscribers 64 (hub.sub 5))) 7 to_all (true, w1, [])
    >>= λ (all, w2, s'). free false w2 7 >>= λ w3. ok (all, w3, s'))
publish-call_each_example =
    publish-call_each note hub 7 to_all world [] hub-AreBytes refl (omega arith) (omega arith)
      (omega arith)

-- The handler with the higher number is called first, and its refusal is the result.
publish_runs : publish note hub 7 to_all world [] ≡ ok (false, world, 30 ∷ 90 ∷ [])
unfolding publish deliver_bytes deliver note u8_msb clear_bit free free_unsafe
publish_runs = refl

publish_excluding_runs :
    publish note hub 7 (record to_all { exclude_id = some 9 }) world [] ≡ ok (true, world, 30 ∷ [])
unfolding publish deliver_bytes deliver note u8_msb clear_bit free free_unsafe
publish_excluding_runs = refl

subscribers_run : receivers hub to_all (subscribers 64 (hub.sub 5)) ≡ 9 ∷ 3 ∷ []
unfolding subscribers receivers has_bit
subscribers_run = refl
