-- ===== src/Fsm.antt =====
-- libs/fsm/fsm.c and the inline calls of libs/fsm/fsm.h: a finite state machine. A state is its
-- handler function, a number, and NULL is 0. The user's handlers are a parameter, `handle`: the
-- return code, the descriptor's `state` after the call, and the user's datum `U` after it.
pub mod Refine
mod Examples
use amast.Common.{
  ℕ, Bool, true, false, not, ◌&&◌, ◌||◌, ltb, leb, ◌==◌, if◌then◌else◌, Checked, ok, fault, check,
  ◌>>=◌, ◌>>◌,
}

-- enum am_rc
pub data Rc : Type 0 where
  rc_err rc_ok coro_busy coro_done handled tran tran_redispatch super queue_was_empty : Rc

-- struct am_fsm
pub record Fsm : Type 0 where
  pub state : ℕ
  pub start_called : Bool
  pub dispatch_in_progress : Bool

-- AM_EVT_ENTRY, AM_EVT_EXIT and AM_EVT_USER
abbrev pub evt_entry : ℕ
evt_entry = 2

abbrev pub evt_exit : ℕ
evt_exit = 3

abbrev pub evt_user : ℕ
evt_user = 4

abbrev pub is_handled : Rc → Bool
is_handled handled = true
is_handled _ = false

abbrev pub is_coro : Rc → Bool
is_coro coro_busy = true
is_coro coro_done = true
is_coro _ = false

abbrev pub is_tran : Rc → Bool
is_tran tran = true
is_tran _ = false

abbrev pub is_redispatch : Rc → Bool
is_redispatch tran_redispatch = true
is_redispatch _ = false

module _ {U : Type 0} (handle : ℕ → ℕ → U → Rc × ℕ × U) where
  abbrev pub call : Fsm → ℕ → U → Rc × Fsm × U
  call fsm event u =
      let (rc, state, u') = handle fsm.state event u in (rc, record fsm { state = state }, u')

  pub enter : Fsm → ℕ → U → Checked (Fsm × U)
  enter fsm state u = do
    let (rc, fsm', u') = call (record fsm { state = state }) evt_entry u
    check (is_handled rc)
    ok (fsm', u')

  pub exit : Fsm → U → Checked (Fsm × U)
  exit fsm u = do let (rc, fsm', u') = call fsm evt_exit u; check (is_handled rc); ok (fsm', u')

  pub dispatch_event : Fsm → ℕ → U → Checked (Rc × Fsm × U)
  unfolding enter exit
  dispatch_event fsm event u = do
    check (not (fsm.state == 0))
    let src = fsm.state
    let (rc, fsm1, u1) = call fsm event u
    let stay = do check (fsm1.state == src); ok (rc, fsm1, u1)
    let go = do
      check (is_tran rc || is_redispatch rc)
      let dst = fsm1.state
      (fsm2, u2) ← exit (record fsm1 { state = src }) u1
      (fsm3, u3) ← enter fsm2 dst u2
      ok (rc, fsm3, u3)
    if is_handled rc || is_coro rc then stay else go

  pub dispatch : Fsm → ℕ → U → Checked (Fsm × U)
  dispatch fsm event u = do
    check (not (fsm.state == 0))
    check fsm.start_called
    check (not fsm.dispatch_in_progress)
    check (leb evt_user event)
    (rc, fsm1, u1) ← dispatch_event (record fsm { dispatch_in_progress = true }) event u
    let again = do
      (rc2, fsm2, u2) ← dispatch_event fsm1 event u1
      check (not (is_redispatch rc2))
      ok (record fsm2 { dispatch_in_progress = false }, u2)
    if is_redispatch rc then again else ok (record fsm1 { dispatch_in_progress = false }, u1)

  pub start : Fsm → ℕ → U → Checked (Fsm × U)
  unfolding enter
  start fsm init_event u = do
    check (not (fsm.state == 0))
    let (rc, fsm1, u1) = call fsm init_event u
    check (is_tran rc)
    (fsm2, u2) ← enter fsm1 fsm1.state u1
    ok (record fsm2 { start_called = true }, u2)

  pub deinit : Fsm → U → Checked (Fsm × U)
  unfolding exit
  deinit fsm u = do
    check (not (fsm.state == 0))
    (fsm1, u1) ← exit fsm u
    ok (record fsm1 { state = 0; start_called = false }, u1)

pub init : ℕ → Checked Fsm
init state = do
  check (not (state == 0))
  ok (record { state = state; start_called = false; dispatch_in_progress = false })

pub is_in : Fsm → ℕ → Bool
is_in fsm state = fsm.state == state
