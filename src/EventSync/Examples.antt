-- ===== src/EventSync/Examples.antt =====
-- A hub with handlers 3 and 9 that are on list 5, of the events with identifier 9. A handler notes
-- its context and how deep the call is.
use amast.Common.{
  ℕ, ◌≡◌, refl, arith, Bool, true, false, ◌==◌, Checked, ok, ◌>>=◌, List, [], ◌∷◌, Returns, update,
  has_bit, clear_bit, bits_below,
}
use amast.Bit.{u8_msb}
use amast.Event.{World}
use amast.Event.Examples.{world}
use amast.EventLists.{AreBytes}
use amast.EventSync.{SyncHub, register, deeper, shallower, publish_request, deliver, deliver_bytes}
use amast.EventSync.Register.{Registered, register-Registered}
use amast.EventSync.Order.{call_each, in_call_order, publish_request-call_each}

abbrev hub : SyncHub
hub = record {
  sub = update (λ _ _. 0) 5 (update (update (λ _. 0) 0 9) 1 2);
  has_sub = true;
  nsub = 10;
  handlers =
      update
        (update (update (λ _. record { fn = 0; ctx = 0 }) 0 (record { fn = 1; ctx = 10 })) 3
          (record { fn = 1; ctx = 30 }))
        9 (record { fn = 2; ctx = 90 });
  recursion_count = 4;
  observer_cb = 0;
}

hub-AreBytes : AreBytes hub.sub
hub-AreBytes si li = ground arith

note :
    (fn ctx event out out_size : ℕ)
    → SyncHub
    → World
    → List ℕ
    → Checked (Bool × SyncHub × World × List ℕ)
note fn ctx event out out_size hub w log = ok (fn == 1, hub, w, ctx ∷ hub.recursion_count ∷ log)

seen : (fn handler_id event : ℕ) → List ℕ → List ℕ
seen fn handler_id event log = log

register-Registered_example : Returns (Registered hub 0 7 70) (register hub 7 70)
register-Registered_example =
    register-Registered hub 7 70 4 (omega arith) (omega arith) (ground arith)

publish_request-call_each_example : publish_request note seen 7 0 0 hub world [] ≡ (
    call_each note seen (in_call_order 8 0 (hub.sub 5)) 7 0 0 (true, deeper hub, world, [])
    >>= λ (all, hub', w', s'). ok (all, shallower hub', w', s'))
publish_request-call_each_example =
    publish_request-call_each note seen 7 0 0 hub world [] hub-AreBytes refl (omega arith)
      (omega arith) (omega arith) (omega arith)

-- Byte 0 comes first, and in it handler 3 before handler 0.
in_call_order_run : in_call_order 8 0 (hub.sub 5) ≡ 3 ∷ 0 ∷ 9 ∷ []
unfolding in_call_order bits_below has_bit
in_call_order_run = refl

publish_runs :
    publish_request note seen 7 0 0 hub world []
    ≡ ok (false, hub, world, 90 ∷ 5 ∷ 10 ∷ 5 ∷ 30 ∷ 5 ∷ [])
unfolding publish_request deliver_bytes deliver note u8_msb clear_bit
publish_runs = refl
