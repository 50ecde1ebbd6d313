-- ===== src/Hsm/Machine/Tests.antt =====
-- Runs of hsm.c at two corners: a hierarchy of exactly AM_HSM_HIERARCHY_DEPTH_MAX levels, and a
-- state that two submachine instances share.
use amast.Common.{ℕ, ◌-◌, ◌≡◌, refl, true, false, ◌==◌, if◌then◌else◌, ok, fault, none}
use amast.Hsm.{StatePath, State, Hsm, Answer, say_handled, go_tran, go_super, top, set_state}
use amast.Hsm.Machine.{
  start, deinit, build, build_loop, is_in, is_in_loop, exit, exit_loop, exit_state, enter_and_init,
  enter, enter_loop, init_loop,
}
use amast.Hsm.Machine.Exit.{at_level}

abbrev state_of : ℕ → State
state_of fn = record { fn = fn; instance_id = 0 }

abbrev machine : Hsm
machine = record {
  state_fn = 20;
  state_instance = 0;
  instance_id = 0;
  hierarchy_level = 0;
  init_called = true;
  start_called = false;
  dispatch_in_progress = false;
}

-- State n + 1 is a substate of n, the first one is 2. 20 is the handler of the initial event.
abbrev chain : ℕ → Hsm → ℕ → ℕ → Answer × ℕ
chain fn hsm event n =
    if event == 0
    then (go_super (state_of (fn - 1)), n)
    else (if fn == 20 then (go_tran (state_of 17), n) else (say_handled, n))

abbrev running : Hsm
running = at_level (record machine { start_called = true }) (state_of 17) 16

-- sixteen levels are entered
chain_start_test : start chain machine 1 0 ≡ ok (running, 0)
unfolding start build build_loop enter_and_init enter enter_loop init_loop
chain_start_test = refl

-- but they cannot be left
chain_deinit_test : deinit chain running 0 ≡ fault
unfolding deinit exit exit_loop exit_state
chain_deinit_test = refl

-- State 8 in instance 5 is a substate of 7 in instance 1, and 7 is shared: in instance 1 it is a
-- substate of 2, in any other of 3.
abbrev shared : ℕ → Hsm → ℕ → ℕ → Answer × ℕ
shared fn hsm event n =
    if fn == 8
    then (go_super (record { fn = 7; instance_id = 1 }), n)
    else (if fn == 7
        then (go_super (state_of (if hsm.instance_id == 1 then 2 else 3)), n)
        else (go_super top, n))

abbrev inner : State
inner = record { fn = 8; instance_id = 5 }

-- what a transition to the state enters
shared_path_test :
    (path : StatePath) × (build shared machine inner top none 0 ≡ ok (path, 0))
    × (path.len ≡ 3)
    × (path.state 2 ≡ state_of 2)
unfolding build build_loop
shared_path_test = (_, refl, refl, refl)

-- and where am_hsm_is_in says it is
is_in_test :
    (is_in shared (set_state machine inner) (state_of 2) 0 ≡ ok (false, 0))
    × (is_in shared (set_state machine inner) (state_of 3) 0 ≡ ok (true, 0))
unfolding is_in is_in_loop
is_in_test = (refl, refl)
