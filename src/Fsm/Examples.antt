-- ===== src/Fsm/Examples.antt =====
-- Two states, 1 and 2, whose handlers log every call. Event 4 is a transition to state 2; event 5
-- is one from state 1 to state 2 that asks for the event again.
use amast.Common.{ℕ, ◌≡◌, refl, arith, true, false, ◌==◌, ◌&&◌, if◌then◌else◌, List, [], ◌∷◌, ok}
use amast.Fsm.{Rc, handled, tran, tran_redispatch, Fsm, dispatch}
use amast.Fsm.Refine.{Behaves, dispatch-react}

abbrev handler : ℕ → ℕ → List (ℕ × ℕ) → Rc × ℕ × List (ℕ × ℕ)
handler s event log =
    if event == 4
    then (tran, 2, (s, event) ∷ log)
    else (if s == 1 && event == 5
        then (tran_redispatch, 2, (s, event) ∷ log)
        else (handled, s, (s, event) ∷ log))

abbrev machine : Fsm
machine = record { state = 1; start_called = true; dispatch_in_progress = false }

handler-Behaves : Behaves handler
handler-Behaves = record {
  entry_handled = λ s u. ground arith;
  entry_stays = λ s u. ground arith;
  exit_handled = λ s u. ground arith;
  exit_stays = λ s u. ground arith;
  proper = λ s event u h. ground arith;
}

dispatch-react_example :
    dispatch handler machine 5 []
    ≡ ok (record machine { state = 2 }, (2, 5) ∷ (2, 2) ∷ (1, 3) ∷ (1, 5) ∷ [])
dispatch-react_example =
    dispatch-react handler machine 5 [] handler-Behaves (ground arith) refl refl (omega arith)
