-- ===== src/Hsm/Machine/Examples.antt =====
-- A machine of four states: 3 and 4 are substates of 2, whose initial transition leads to 3, and 5
-- stands beside 2. Events 4 and 7 in state 2 lead to 5,
-- 7 to be dispatched there again, and event 5 in state 3 to 4. State 2 handles event 6. Every handler logs what
-- it acts on. 6 is the handler of the initial event, which leads to 2.
use amast.Common.{
  check, not, ◌>>=◌, ◌>>◌, ℕ, zero, suc, ◌≤◌, ◌<◌, ◌≡◌, ◌≢◌, refl, sym, ap, ap₂, inl, inr, arith,
  Bool-cases, true, false, ◌==◌, ◌&&◌, if◌then◌else◌, List, [], ◌∷◌, ok, Option, none, some,
}
use amast.Hsm.{
  is_redispatch, State, Hsm, Answer, say_handled, go_tran, go_tran_redispatch, go_super, top,
  set_state,
}
use amast.Hsm.Machine.{dispatch_event, transition, dispatch, start, deinit, is_in}
use amast.Hsm.Machine.Tree.{Tree, IsTree, up, settle}
use amast.Hsm.Machine.Exit.{at_level}
use amast.Hsm.Machine.Lca.{IsLca}
use amast.Hsm.Machine.Transition.{transition-rest}
use amast.Hsm.Machine.Dispatch.{Passes, dispatch-rest, dispatch_redispatched}
use amast.Hsm.Machine.Life.{start-rest, deinit-exits, is_in-within}

abbrev Log : Type 0
Log = List (ℕ × ℕ)

abbrev state_of : ℕ → State
state_of fn = record { fn = fn; instance_id = 0 }

abbrev parent_of : ℕ → ℕ
parent_of fn = if fn == 3 then 2 else (if fn == 4 then 2 else 1)

abbrev depth_of : ℕ → ℕ
depth_of fn =
    if fn == 2
    then 1
    else (if fn == 5 then 1 else (if fn == 3 then 2 else (if fn == 4 then 2 else 0)))

abbrev user_event : ℕ → ℕ → Log → Answer × Log
user_event fn event log =
    if fn == 2 && event == 4
    then (go_tran (state_of 5), (fn, event) ∷ log)
    else (if fn == 3 && event == 5
        then (go_tran (state_of 4), (fn, event) ∷ log)
        else if fn == 2 && event == 6
        then (say_handled, (fn, event) ∷ log)
        else if fn == 2 && event == 7
        then (go_tran_redispatch (state_of 5), (fn, event) ∷ log)
        else (go_super (state_of (parent_of fn)), log))

abbrev initial_event : ℕ → Log → Answer × Log
initial_event fn log =
    if fn == 2
    then (go_tran (state_of 3), (fn, 1) ∷ log)
    else (if fn == 6 then (go_tran (state_of 2), log) else (say_handled, (fn, 1) ∷ log))

abbrev handler : ℕ → Hsm → ℕ → Log → Answer × Log
handler fn hsm event log =
    if event == 0
    then (go_super (state_of (parent_of fn)), log)
    else (if event == 1
        then initial_event fn log
        else (if event == 2
            then (say_handled, (fn, 2) ∷ log)
            else (if event == 3 then (say_handled, (fn, 3) ∷ log) else user_event fn event log)))

abbrev tree : Tree Log
tree = record {
  parent = λ s. state_of (parent_of s.fn);
  depth = λ s. if s.instance_id == 0 then depth_of s.fn else 0;
  initial = λ s. if s.fn == 2 then some (state_of 3) else none;
  on_entry = λ s log. (s.fn, 2) ∷ log;
  on_exit = λ s log. (s.fn, 3) ∷ log;
  on_init = λ s log. (s.fn, 1) ∷ log;
}

state_eq : (s : State) (fn : ℕ) → s.fn ≡ fn → s.instance_id ≡ 0 → s ≡ state_of fn
state_eq s fn e z = ap₂ (λ f i. record { fn = f; instance_id = i }) e z

some_eq : (s r : State) → some s ≡ some r → s ≡ r
some_eq s r e = cc

none-some : (r : State) → ◌≡◌ {A = Option State} none (some r) → ⊥
none-some r e = cc

initial-some : (s r : State) → tree.initial s ≡ some r → (s.fn ≡ 2) × (state_of 3 ≡ r)
initial-some s r e = elim (Bool-cases (s.fn == 2)) [
  | inl b ↦ (ground arith, some_eq (state_of 3) r (rw b at e))
  | inr b ↦ absurd (none-some r (rw b at e))
]

handler-IsTree : IsTree handler tree
handler-IsTree = record {
  root = refl;
  below_top = λ s h. ground arith;
  first = λ s h. ap state_of (ground arith);
  deeper = λ s h. ground arith;
  empty = λ hsm s u h. refl;
  entry = λ hsm s u h. inl refl;
  exit = λ hsm s u h. inl refl;
  settled = λ hsm s u h e. inl (ground arith);
  leads = λ hsm s r u h e. let (f, q) = initial-some s r e in rw (f, sym q) refl;
  inside = λ s r h e.
      let (f, q) = initial-some s r e in
      let s_2 = state_eq s 2 f (ground arith) in
      (1, omega arith, rw (s_2, sym q) refl, rw s_2 (rw (sym q) refl));
  shallow = λ s. ground arith;
}

abbrev machine : Hsm
machine = record {
  state_fn = 6;
  state_instance = 0;
  instance_id = 0;
  hierarchy_level = 0;
  init_called = true;
  start_called = true;
  dispatch_in_progress = false;
}

-- 2 and 5 meet in am_hsm_top
apart_2_5 : (i l : ℕ) → i < 1 → l ≤ 1 → up tree i (state_of 2) ≢ up tree l (state_of 5)
apart_2_5 zero zero h k e = omega (arith, ap (λ s. s.fn) e)
apart_2_5 zero (suc zero) h k e = omega (arith, ap (λ s. s.fn) e)
apart_2_5 zero (suc (suc l)) h k e = omega arith
apart_2_5 (suc i) l h k e = omega arith

states_2_5-IsLca : IsLca tree (state_of 2) (state_of 5) 1 1
states_2_5-IsLca = record {
  common = refl;
  above_src = omega arith;
  above_dst = omega arith;
  apart = apart_2_5;
}

start-rest_example :
    start handler (at_level (record machine { start_called = false }) (state_of 6) 0) 1 []
    ≡ ok (at_level machine (state_of 3) 2, (3, 1) ∷ (3, 2) ∷ (2, 1) ∷ (2, 2) ∷ [])
unfolding settle
start-rest_example =
    start-rest handler-IsTree machine (state_of 6) (state_of 2) 1 [] [] refl (omega arith) refl

abbrev busy : Hsm
busy = at_level (record machine { dispatch_in_progress = true }) (state_of 3) 2

event_4-Passes : Passes handler tree busy (state_of 3) (state_of 3) 4 1 (λ _. [])
unfolding Passes
event_4-Passes zero h = refl
event_4-Passes (suc i) h = absurd (omega arith)

event_9-Passes : Passes handler tree busy (state_of 3) (state_of 3) 9 2 (λ _. [])
unfolding Passes
event_9-Passes zero h = refl
event_9-Passes (suc zero) h = refl
event_9-Passes (suc (suc i)) h = absurd (omega arith)

event_6-Passes : Passes handler tree busy (state_of 3) (state_of 3) 6 1 (λ _. [])
unfolding Passes
event_6-Passes zero h = refl
event_6-Passes (suc i) h = absurd (omega arith)

event_7-Passes : Passes handler tree busy (state_of 3) (state_of 3) 7 1 (λ _. [])
unfolding Passes
event_7-Passes zero h = refl
event_7-Passes (suc i) h = absurd (omega arith)

dispatch_redispatched_example : dispatch handler (at_level machine (state_of 3) 2) 7 [] ≡ (
    dispatch_event handler
      (at_level (record machine { dispatch_in_progress = true }) (state_of 5) 1)
      7
      ((5, 1) ∷ (5, 2) ∷ (2, 3) ∷ (3, 3) ∷ (2, 7) ∷ [])
    >>= λ (rc, hsm', u).
        check (not (is_redispatch rc)) >> ok (record hsm' { dispatch_in_progress = false }, u))
unfolding settle
dispatch_redispatched_example =
    dispatch_redispatched handler-IsTree 1 1 1 machine (state_of 3) (state_of 5) 7 (λ _. [])
      ((2, 7) ∷ []) refl (omega arith) (omega arith) (omega arith) (omega arith) event_7-Passes refl
      states_2_5-IsLca

-- in state 3, event 4 is passed on to 2
dispatch-rest_example :
    dispatch handler (at_level machine (state_of 3) 2) 4 []
    ≡ ok (at_level machine (state_of 5) 1, (5, 1) ∷ (5, 2) ∷ (2, 3) ∷ (3, 3) ∷ (2, 4) ∷ [])
unfolding settle
dispatch-rest_example =
    dispatch-rest handler-IsTree 1 1 1 machine (state_of 3) (state_of 5) 4 (λ _. []) ((2, 4) ∷ [])
      refl (omega arith) (omega arith) (omega arith) (omega arith) event_4-Passes refl
      states_2_5-IsLca

transition-rest_example :
    transition handler (at_level machine (state_of 3) 2) (state_of 2) (state_of 5) []
    ≡ ok (at_level machine (state_of 5) 1, (5, 1) ∷ (5, 2) ∷ (2, 3) ∷ (3, 3) ∷ [])
unfolding settle
transition-rest_example =
    transition-rest handler-IsTree 1 1 1 machine (state_of 3) (state_of 5) [] (omega arith)
      (omega arith) states_2_5-IsLca

deinit-exits_example :
    deinit handler (at_level machine (state_of 3) 2) []
    ≡ ok (
      at_level (record machine { init_called = false; start_called = false }) top 0,
      (2, 3) ∷ (3, 3) ∷ [],
    )
deinit-exits_example =
    deinit-exits handler-IsTree machine (state_of 3) [] (omega arith) (omega arith)

is_in-within_example :
    is_in handler (set_state machine (state_of 3)) (state_of 2) [] ≡ ok (true, [])
is_in-within_example =
    is_in-within handler-IsTree machine (state_of 3) (state_of 2) [] (λ h r w pos. refl)
      (omega arith) (omega arith) (omega arith)
