-- ===== src/Hsm.antt =====
-- libs/hsm/hsm.c and the inline calls of libs/hsm/hsm.h: a hierarchical state machine.
-- A handler function is named by a number: NULL is 0, and am_hsm_top is 1. The user's handlers are
-- a parameter, `handle`: what the handler `fn` answers to an event, given the descriptor that it
-- may look at and the user's data `U`, which it changes. A handler that names NULL as a state, on
-- which am_hsm_state_is_eq fails an assertion, is outside of the model.
pub mod Machine
use amast.Common.{
  Option, none, some, update, ℕ, zero, suc, ◌+◌, ◌-◌, ◌%◌, ◌^◌, Bool, true, false, not, ◌&&◌, ◌||◌,
  ltb, leb, ◌==◌, if◌then◌else◌, Checked, ok, fault, check, ◌>>=◌, ◌>>◌, List, [], ◌∷◌, ◌++◌,
  length,
}

-- struct am_hsm_state
pub record State : Type 0 where
  pub fn : ℕ
  pub instance_id : ℕ

-- struct am_hsm
pub record Hsm : Type 0 where
  pub state_fn : ℕ
  pub state_instance : ℕ
  pub instance_id : ℕ
  pub hierarchy_level : ℕ
  pub init_called : Bool
  pub start_called : Bool
  pub dispatch_in_progress : Bool

-- the return codes of enum am_rc that a handler may give
pub data Rc : Type 0 where
  coro_busy coro_done handled tran tran_redispatch super : Rc

-- The last call in a handler: am_hsm_handled, the two codes of a coroutine, am_hsm_tran_i,
-- am_hsm_tran_redispatch_i or am_hsm_super_i. (The calls without a submachine instance pass 0.)
pub data Answer : Type 0 where
  say_handled say_coro_busy say_coro_done : Answer
  go_tran go_tran_redispatch go_super : State → Answer

-- AM_EVT_EMPTY, AM_EVT_INIT, AM_EVT_ENTRY, AM_EVT_EXIT and AM_EVT_USER
abbrev pub evt_empty : ℕ
evt_empty = 0

abbrev pub evt_init : ℕ
evt_init = 1

abbrev pub evt_entry : ℕ
evt_entry = 2

abbrev pub evt_exit : ℕ
evt_exit = 3

abbrev pub evt_user : ℕ
evt_user = 4

-- AM_HSM_HIERARCHY_DEPTH_MAX
abbrev pub depth_max : ℕ
depth_max = 16

abbrev pub top_fn : ℕ
top_fn = 1

abbrev pub top : State
top = record { fn = top_fn; instance_id = 0 }

abbrev pub get_state : Hsm → State
get_state hsm = record { fn = hsm.state_fn; instance_id = hsm.state_instance }

abbrev pub set_active_state : Hsm → State → Hsm
set_active_state hsm s = record hsm { state_fn = s.fn; state_instance = s.instance_id }

abbrev pub set_state : Hsm → State → Hsm
set_state hsm s = record hsm {
  state_fn = s.fn;
  state_instance = s.instance_id;
  instance_id = s.instance_id;
}

-- am_hsm_state_is_eq, and the same comparison of two states
abbrev pub is_same : State → State → Bool
is_same s t = s.fn == t.fn && s.instance_id == t.instance_id

abbrev pub state_is_eq : Hsm → State → Bool
state_is_eq hsm s = is_same (get_state hsm) s

-- what am_hsm_tran_i, am_hsm_tran_redispatch_i and am_hsm_super_i do to the descriptor, and the
-- code that each of the answers returns
abbrev pub answered : Hsm → Answer → Rc × Hsm
answered hsm say_handled = (handled, hsm)
answered hsm say_coro_busy = (coro_busy, hsm)
answered hsm say_coro_done = (coro_done, hsm)
answered hsm (go_tran s) = (tran, set_state hsm s)
answered hsm (go_tran_redispatch s) = (tran_redispatch, set_state hsm s)
answered hsm (go_super s) = (super, set_state hsm s)

-- struct am_hsm_path: from a state at index 0 to its ancestors
pub record StatePath : Type 0 where
  pub state : ℕ → State
  pub len : ℕ

abbrev pub is_super : Rc → Bool
is_super super = true
is_super _ = false

abbrev pub is_handled : Rc → Bool
is_handled handled = true
is_handled _ = false

abbrev pub is_tran : Rc → Bool
is_tran tran = true
is_tran _ = false

abbrev pub is_redispatch : Rc → Bool
is_redispatch tran_redispatch = true
is_redispatch _ = false

abbrev pub is_coro : Rc → Bool
is_coro coro_busy = true
is_coro coro_done = true
is_coro _ = false

-- whether the optional state `till` is `s`
abbrev pub is_till : Option State → State → Bool
is_till none s = false
is_till (some t) s = is_same t s

abbrev pub path_of : State → StatePath
path_of s = record { state = λ _. s; len = 1 }

-- `s` at the end of the path
abbrev pub extend : StatePath → State → StatePath
extend path s = record { state = update path.state path.len s; len = path.len + 1 }
