-- ===== src/Fsm/Refine.antt =====
-- A finite state machine against its abstract reading: a handler's answer, an exit and an entry.
use amast.Common.{
  ℕ, ◌≡◌, ◌≢◌, ◌≤◌, ap, arith, Bool, true, false, not, ◌&&◌, ◌||◌, leb, ◌==◌, inl, inr,
  if◌then◌else◌, Checked, ok, fault, check, ◌>>◌, Bool-cases,
}
use amast.Fsm.{
  Rc, handled, Fsm, evt_entry, evt_exit, evt_user, is_handled, is_coro, is_tran, is_redispatch,
  dispatch, dispatch_event,
}

-- What a handler of state `s` may answer to an event of the user: it handles the event and leaves
-- the state alone, or makes a transition to a state.
abbrev pub is_proper : {U : Type 0} → ℕ → Rc × ℕ × U → Bool
is_proper s (rc, t, u) =
    ((is_handled rc || is_coro rc) && t == s) || ((is_tran rc || is_redispatch rc) && not (t == 0))

module _ {U : Type 0} (handle : ℕ → ℕ → U → Rc × ℕ × U) where
  -- What the documentation of the handlers asks of them.
  pub record Behaves : Type 0 where
    pub entry_handled : (s : ℕ) (u : U) → (handle s evt_entry u).0 ≡ handled
    pub entry_stays : (s : ℕ) (u : U) → (handle s evt_entry u).1 ≡ s
    pub exit_handled : (s : ℕ) (u : U) → (handle s evt_exit u).0 ≡ handled
    pub exit_stays : (s : ℕ) (u : U) → (handle s evt_exit u).1 ≡ s
    pub proper : (s event : ℕ) (u : U) → evt_user ≤ event → is_proper s (handle s event u) ≡ true

  -- The abstract step: the answer of the active state's handler, and for a transition the exit
  -- action of the old state followed by the entry action of the new one.
  abbrev pub step : ℕ → ℕ → U → Rc × ℕ × U
  step s event u =
      let (rc, t, u1) = handle s event u in
      let u3 = (handle t evt_entry (handle s evt_exit u1).2).2 in
      if is_handled rc || is_coro rc then (rc, s, u1) else (rc, t, u3)

  dispatch_event-step :
      (fsm : Fsm) (event : ℕ) (u : U)
      → Behaves
      → fsm.state ≢ 0
      → evt_user ≤ event
      → let (rc, t, v) = step fsm.state event u in
        (dispatch_event handle fsm event u ≡ ok (rc, record fsm { state = t }, v)) × (t ≢ 0)
  unfolding dispatch_event
  dispatch_event-step fsm event u b ne h =
      let (rc, t, u1) = handle fsm.state event u in
      ground (
        arith,
        b.proper fsm.state event u h,
        b.exit_handled fsm.state u1,
        b.exit_stays fsm.state u1,
        b.entry_handled t (handle fsm.state evt_exit u1).2,
        b.entry_stays t (handle fsm.state evt_exit u1).2,
      )

  -- The abstract dispatch: a step, and one more with the same event if the first asks for it.
  abbrev pub react : ℕ → ℕ → U → Rc × ℕ × U
  react s event u =
      let (rc, t, v) = step s event u in if is_redispatch rc then step t event v else (rc, t, v)

  -- With handlers that behave, am_fsm_dispatch of a user event on a started machine that is not
  -- dispatching does one abstract step; a second one with the same event if the first handler
  -- asked for a redispatch; and fails an assertion just when the second asks for it again. All
  -- other fields of the descriptor are as before.
  pub dispatch-react :
      (fsm : Fsm) (event : ℕ) (u : U)
      → Behaves
      → fsm.state ≢ 0
      → fsm.start_called ≡ true
      → fsm.dispatch_in_progress ≡ false
      → evt_user ≤ event
      → dispatch handle fsm event u ≡ (
          let (rc, t, v) = react fsm.state event u in
          if is_redispatch rc then fault else ok (record fsm { state = t }, v))
  unfolding dispatch
  dispatch-react fsm event u b ne st pr h =
      let set : (not (fsm.state == 0)) ≡ true = ground arith in
      let user : leb evt_user event ≡ true = ground arith in
      let s = step fsm.state event u in
      let busy = record fsm { dispatch_in_progress = true } in
      let (one, ne') = dispatch_event-step busy event u b ne h in
      let next = record busy { state = s.1 } in
      let two = (dispatch_event-step next event s.2 b ne' h).0 in
      let idle : (not fsm.dispatch_in_progress) ≡ true = ground arith in
      rw (set, ap check st, idle, user, one)
        (elim (Bool-cases (is_redispatch s.0)) [
          | inl e ↦ rw (e, two) (last (step s.1 event s.2))
          | inr e ↦ rw e (ground arith)
        ])
    where
      last :
          (r : Rc × ℕ × U)
          → ◌≡◌ {A = Checked (Fsm × U)}
              (check (not (is_redispatch r.0))
                >> ok (record fsm { state = r.1; dispatch_in_progress = false }, r.2))
              (if is_redispatch r.0 then fault else ok (record fsm { state = r.1 }, r.2))
      last r = ground arith

  -- A call that is nested in another, one before am_fsm_start, or one with a reserved event fails
  -- an assertion before any handler runs.
  pub dispatch_guarded :
      (fsm : Fsm) (event : ℕ) (u : U)
      → (not (fsm.state == 0)
          && (fsm.start_called && (not fsm.dispatch_in_progress && leb evt_user event)))
        ≡ false
      → dispatch handle fsm event u ≡ fault
  unfolding dispatch
  dispatch_guarded fsm event u h = ground arith
