-- ===== src/Hsm/Machine.antt =====
-- The functions of libs/hsm/hsm.c, over the user's handlers. A user's datum is threaded through
-- every call of a handler. The arrays of a path are maps from indices.
pub mod Tree
pub mod Exit
pub mod Build
pub mod Enter
pub mod Lca
pub mod Transition
pub mod Dispatch
pub mod Life
mod Examples
mod Tests
use amast.Common.{
  ℕ, zero, suc, ◌+◌, ◌-◌, ◌%◌, ◌^◌, Bool, true, false, not, ◌&&◌, ◌||◌, ltb, leb, ◌==◌,
  if◌then◌else◌, Checked, ok, fault, check, ◌>>=◌, ◌>>◌, Option, none, some, update,
}
use amast.Hsm.{
  StatePath, is_super, is_handled, is_tran, is_redispatch, is_coro, is_till, path_of, extend, State,
  Hsm, Rc, coro_busy, coro_done, handled, tran, tran_redispatch, super, Answer, answered, evt_empty,
  evt_init, evt_entry, evt_exit, evt_user, depth_max, top_fn, top, get_state, set_active_state,
  set_state, is_same, state_is_eq,
}

module _ {U : Type 0} (handle : ℕ → Hsm → ℕ → U → Answer × U) where
  -- the handler `fn` is called; am_hsm_top handles every event
  abbrev pub call_fn : ℕ → Hsm → ℕ → U → Rc × Hsm × U
  call_fn fn hsm event u =
      let (a, u') = handle fn hsm event u in
      let (rc, hsm') = answered hsm a in if fn == top_fn then (handled, hsm, u) else (rc, hsm', u')

  abbrev pub call : Hsm → ℕ → U → Rc × Hsm × U
  call hsm event u = call_fn hsm.state_fn hsm event u

  -- The loop of hsm_build, on fuel. The path's length bounds its rounds.
  pub build_loop : ℕ → Hsm → StatePath → State → Option State → U → Checked (StatePath × U)
  build_loop zero hsm path until till u = fault
  build_loop (suc fuel) hsm path until till u =
      let path' = extend path (get_state hsm) in
      let (rc, hsm', u') = call hsm evt_empty u in
      let deeper = build_loop fuel hsm' path' until till u' in
      let climb =
        if is_till till (get_state hsm) then ok (path', u) else (check (is_super rc) >> deeper) in
      if state_is_eq hsm until then ok (path, u) else (check (ltb path.len depth_max) >> climb)

  -- The descriptor is put back as it was, so it is not part of the result.
  pub build : Hsm → (from until : State) → (till : Option State) → U → Checked (StatePath × U)
  build hsm from until till u =
      let (rc, hsm', u') = call (set_state hsm from) evt_empty u in
      let climb = build_loop depth_max hsm' (path_of from) until till u' in
      if is_till till from then ok (path_of from, u) else (check (is_super rc) >> climb)

  -- The loop of hsm_enter: the states of the indices below `i`, the last one first.
  pub enter_loop : (ℕ → State) → ℕ → Hsm → U → Checked (Hsm × U)
  enter_loop state zero hsm u = ok (hsm, u)
  enter_loop state (suc i) hsm u = do
    let (rc, hsm', u') = call (set_state hsm (state i)) evt_entry u
    check (is_super rc || is_handled rc)
    enter_loop state i (set_state hsm' (state i)) u'

  pub enter : Hsm → StatePath → U → Checked (Hsm × U)
  enter hsm path u = do
    (hsm', u') ← enter_loop path.state path.len hsm u
    let level = hsm'.hierarchy_level + path.len
    check (leb level depth_max)
    ok (record hsm' { hierarchy_level = level % 2 ^ 5 }, u')

  -- the part of hsm_exit_state behind the calls of the handler
  abbrev pub leave : Rc → Hsm → U → Checked (Hsm × U)
  leave rc hsm u = do
    check (is_super rc)
    check (ltb 0 hsm.hierarchy_level)
    ok (record hsm { hierarchy_level = hsm.hierarchy_level - 1 }, u)

  pub exit_state : Hsm → U → Checked (Hsm × U)
  exit_state hsm u =
      let (rc, hsm1, u1) = call hsm evt_exit u in
      let (rc2, hsm2, u2) = call hsm1 evt_empty u1 in
      if is_handled rc then leave rc2 hsm2 u2 else leave rc hsm1 u1

  -- The loop of hsm_exit, with the counter that the code counts down and asserts.
  pub exit_loop : ℕ → Hsm → State → U → Checked (Hsm × U)
  exit_loop zero hsm until u = fault
  exit_loop (suc cnt) hsm until u =
      let round = do (hsm', u') ← exit_state hsm u; check (ltb 0 cnt); exit_loop cnt hsm' until u'
      in if state_is_eq hsm until then ok (hsm, u) else round

  pub exit : Hsm → State → U → Checked (Hsm × U)
  exit hsm until u = exit_loop depth_max hsm until u

  -- The loop of hsm_enter_and_init, on fuel. Each round enters a state, and hsm_enter asserts that
  -- no more than `depth_max` are entered.
  pub init_loop : ℕ → Hsm → StatePath → U → Checked (Hsm × U)
  init_loop zero hsm path u = fault
  init_loop (suc fuel) hsm path u =
      let (rc, hsm', u') = call hsm evt_init u in
      let round = do
        (path', v) ← build hsm' (get_state hsm') (path.state 0) none u'
        (hsm'', v') ← enter hsm' path' v
        init_loop fuel (set_state hsm'' (path'.state 0)) path' v'
      in let done =
          check (is_handled rc || is_super rc) >> ok (set_state hsm' (path.state 0), u') in
        if is_tran rc then round else done

  pub enter_and_init : Hsm → StatePath → U → Checked (Hsm × U)
  enter_and_init hsm path u = do
    (hsm', u') ← enter hsm path u
    init_loop (depth_max + 1) (set_state hsm' (path.state 0)) path u'

  -- The loop of hsm_transition that exits states until one is on the path.
  pub lca_loop : ℕ → Hsm → StatePath → U → Checked (Hsm × U)
  lca_loop zero hsm path u = fault
  lca_loop (suc cnt) hsm path u =
      let i = path.len - hsm.hierarchy_level in
      let found = leb hsm.hierarchy_level path.len && state_is_eq hsm (path.state i) in
      let up = do (hsm', u') ← exit_state hsm u; lca_loop cnt hsm' path u'
      in let round =
          check (ltb 0 cnt)
          >> (if found then enter_and_init hsm (record path { len = i }) u else up) in
        if hsm.state_fn == top_fn then enter_and_init hsm path u else round

  pub transition : Hsm → (src dst : State) → U → Checked (Hsm × U)
  transition hsm src dst u = do
    (hsm, u) ←
        if state_is_eq hsm src
        then ok (hsm, u)
        else (do (hsm', u') ← exit hsm src u; ok (set_state hsm' src, u'))
    let self = do (hsm', u') ← exit_state hsm u; enter_and_init hsm' (path_of dst) u'
    let other = do
      (path, u') ← build hsm dst top (some src) u
      if is_same (path.state (path.len - 1)) src
          then enter_and_init hsm (record path { len = path.len - 1 }) u'
          else lca_loop depth_max hsm path u'
    if is_same src dst then self else other

  -- The loop of hsm_dispatch that takes the event up the ancestors, `state` being the active one.
  -- The result is the return code, the state that gave it, and the descriptor.
  pub propagate : ℕ → Hsm → State → ℕ → U → Checked (Rc × State × Hsm × U)
  propagate zero hsm state event u = fault
  propagate (suc cnt) hsm state event u =
      let src = get_state hsm in
      let (rc, hsm', u') = call_fn src.fn (set_active_state hsm state) event u in
      let again = propagate cnt hsm' state event u' in
      check (ltb 0 cnt) >> (if is_super rc then again else ok (rc, src, hsm', u'))

  pub dispatch_event : Hsm → ℕ → U → Checked (Rc × Hsm × U)
  dispatch_event hsm event u = do
    let state = get_state hsm
    (rc, src, hsm', u') ← propagate depth_max hsm state event u
    let stay =
        check (is_handled rc || (is_coro rc || is_super rc)) >> ok (rc, set_state hsm' state, u')
    let go = do
      let dst = get_state hsm'
      check (not (dst.fn == top_fn))
      (hsm'', u'') ← transition (set_state hsm' state) src dst u'
      ok (rc, hsm'', u'')
    if is_tran rc || is_redispatch rc then go else stay

  pub dispatch : Hsm → ℕ → U → Checked (Hsm × U)
  dispatch hsm event u = do
    check (not (hsm.state_fn == 0))
    check hsm.start_called
    check (not hsm.dispatch_in_progress)
    check (leb evt_user event)
    (rc, hsm1, u1) ← dispatch_event (record hsm { dispatch_in_progress = true }) event u
    let again = do
      (rc2, hsm2, u2) ← dispatch_event hsm1 event u1
      check (not (is_redispatch rc2))
      ok (record hsm2 { dispatch_in_progress = false }, u2)
    if is_redispatch rc then again else ok (record hsm1 { dispatch_in_progress = false }, u1)

  -- The loop of am_hsm_is_in: the descriptor `saved` is put back before each call of a handler.
  pub is_in_loop : ℕ → (saved hsm : Hsm) → State → U → Checked (Bool × U)
  is_in_loop zero saved hsm state u = fault
  is_in_loop (suc cnt) saved hsm state u =
      let (rc, hsm', u') = call_fn hsm.state_fn saved evt_empty u in
      let again = is_in_loop cnt saved hsm' state u' in
      let round = (check (is_super rc) >> check (ltb 0 cnt)) >> again in
      if not (state_is_eq hsm state) && not (hsm.state_fn == top_fn)
      then round
      else ok (state_is_eq hsm state, u)

  pub is_in : Hsm → State → U → Checked (Bool × U)
  is_in hsm state u = do
    check (not (hsm.state_fn == 0))
    check (not (state.fn == 0))
    is_in_loop depth_max hsm hsm state u

  pub start : Hsm → ℕ → U → Checked (Hsm × U)
  start hsm init_event u = do
    check hsm.init_called
    check (not hsm.start_called)
    let state = get_state hsm
    let (rc, hsm1, u1) = call hsm init_event u
    check (is_tran rc)
    (path, u2) ← build (set_state hsm1 state) (get_state hsm1) top none u1
    (hsm2, u3) ← enter_and_init (set_state hsm1 state) path u2
    ok (record hsm2 { start_called = true }, u3)

  pub deinit : Hsm → U → Checked (Hsm × U)
  deinit hsm u = do
    check hsm.init_called
    check (not (hsm.state_fn == 0))
    (hsm', u') ← if hsm.start_called then exit hsm top u else ok (hsm, u)
    ok (record (set_state hsm' top) { init_called = false; start_called = false }, u')

-- am_hsm_init: memset to zero, the state, and the safety net
pub init : State → Checked Hsm
init state = do
  check (not (state.fn == 0))
  ok (record {
    state_fn = state.fn;
    state_instance = state.instance_id;
    instance_id = state.instance_id;
    hierarchy_level = 0;
    init_called = true;
    start_called = false;
    dispatch_in_progress = false;
  })
