-- ===== src/Hsm/Machine/Life.antt =====
-- am_hsm_start, am_hsm_deinit and am_hsm_is_in on a tree of states.
use amast.Common.{
  ℕ, zero, suc, ◌+◌, ◌<◌, ◌≡◌, ◌≢◌, refl, sym, arith, Bool, Bool-cases, inl, inr, true, false, not,
  ◌||◌, ltb, ◌==◌, ok, Returns-value, none,
}
use amast.Hsm.{
  State, Hsm, Answer, go_super, go_tran, set_state, depth_max, top, top_fn, evt_empty, is_same,
}
use amast.Hsm.Machine.{build, start, deinit, is_in, is_in_loop}
use amast.Hsm.Machine.Tree.{Tree, IsTree, exits, enters, settle, up_all, depth-parent}
use amast.Hsm.Machine.Exit.{at_level}
use amast.Hsm.Machine.Build.{build-until}
use amast.Hsm.Machine.Enter.{enter_and_init-settle}
use amast.Hsm.Machine.Transition.{exit-src}

-- whether `s` is a state or one of the `n` states above it
abbrev pub within : {U : Type 0} → Tree U → (n : ℕ) → (s state : State) → Bool
within t zero s state = is_same s state
within t (suc n) s state = is_same s state || within t n (t.parent s) state

module _ {U : Type 0} {handle : ℕ → Hsm → ℕ → U → Answer × U} {t : Tree U}
    (tree : IsTree handle t) where
  -- On a machine of level 0 that am_hsm_init was called for and that is not started, and whose
  -- first handler answers the initial event by a transition to a state of the tree, am_hsm_start
  -- fails no assertion. It enters the states from the top down to the target, follows the initial
  -- transitions, and marks the machine as started.
  pub start-rest :
      (hsm : Hsm) (s dst : State) (init_event : ℕ) (u v : U)
      → (s.fn == top_fn) ≡ false
      → 0 < t.depth dst
      → let fresh = at_level (record hsm { init_called = true; start_called = false }) s 0 in
        handle s.fn fresh init_event u ≡ (go_tran dst, v)
        → let (r, w) = settle t (depth_max + 1) dst (enters t (t.depth dst) dst v) in
          start handle fresh init_event u
          ≡ ok (at_level (record hsm { init_called = true; start_called = true }) r (t.depth r), w)
  unfolding start
  start-rest hsm s dst init_event u v ne pos e =
      let fresh = at_level (record hsm { init_called = true; start_called = false }) s 0 in
      let b = rw (up_all tree dst pos) at (
        build-until tree fresh dst (t.depth dst) none v pos (omega arith)
          (omega (arith, tree.shallow dst)) (λ i l. refl)) in
      let (q, built, (climbs, same)) = Returns-value _ (build handle fresh dst top none v) b in
      rw
        (
          ne,
          e,
          built,
          same,
          enter_and_init-settle tree (t.depth dst) 0 q.0 dst s
              (record hsm { init_called = true; start_called = false }) v climbs
              (climbs.state 0 pos) pos (omega arith),
        )
        refl

  -- On an initialised and started machine in a state of the tree, am_hsm_deinit fails no assertion.
  -- It exits the active state and all its superstates, upwards, and leaves the machine in
  -- am_hsm_top, on level 0, and neither initialised nor started.
  pub deinit-exits :
      (hsm : Hsm) (a : State) (u : U)
      → a.fn ≢ 0
      → 0 < t.depth a
      → let live = record hsm { init_called = true; start_called = true } in
        deinit handle (at_level live a (t.depth a)) u
        ≡ ok (
          at_level (record hsm { init_called = false; start_called = false }) top 0,
          exits t (t.depth a) a u,
        )
  unfolding deinit
  deinit-exits hsm a u ne pos =
      let set : (not (a.fn == 0)) ≡ true = ground arith in
      let live = record hsm { init_called = true; start_called = true } in
      let out =
        rw (up_all tree a pos, tree.root) at (exit-src tree (t.depth a) live a u (omega arith)) in
      rw (set, out) refl

  is_in_loop-within :
      (cnt n : ℕ) (saved hsm : Hsm) (s state : State) (u : U)
      → ((h : Hsm) (r : State) (w : U)
          → 0 < t.depth r
          → handle r.fn h evt_empty w ≡ (go_super (t.parent r), w))
      → n ≡ t.depth s
      → n < cnt
      → (t.depth s ≡ 0 → s ≡ top)
      → is_in_loop handle cnt saved (set_state hsm s) state u ≡ ok (within t n s state, u)
  unfolding is_in_loop
  is_in_loop-within zero n saved hsm s state u any d c z = absurd (omega arith)
  is_in_loop-within (suc cnt) zero saved hsm s state u any d c z =
      let same = z (sym d) in rw same (ground arith)
  is_in_loop-within (suc cnt) (suc n) saved hsm s state u any d c z =
      let low : 0 < t.depth s = omega arith in
      let more : ltb 0 cnt ≡ true = ground arith in
      let parent = depth-parent tree s low in
      let rest =
        is_in_loop-within cnt n saved saved (t.parent s) state u any (omega (arith, parent))
          (omega arith) (λ e. tree.first s (omega (arith, parent))) in
      elim (Bool-cases (is_same s state)) [
        | inl e ↦ rw e refl
        | inr e ↦ rw (e, tree.below_top s low, any saved s u low, more) rest
      ]

  -- With handlers that form a tree and give their superstate whatever the descriptor, am_hsm_is_in
  -- in a state of the tree fails no assertion, changes nothing, and says whether the state asked
  -- for is the active one or one of its superstates, am_hsm_top included.
  pub is_in-within :
      (hsm : Hsm) (a state : State) (u : U)
      → ((h : Hsm) (r : State) (w : U)
          → 0 < t.depth r
          → handle r.fn h evt_empty w ≡ (go_super (t.parent r), w))
      → a.fn ≢ 0
      → state.fn ≢ 0
      → 0 < t.depth a
      → is_in handle (set_state hsm a) state u ≡ ok (within t (t.depth a) a state, u)
  unfolding is_in
  is_in-within hsm a state u any ne asked pos =
      let set : (not (a.fn == 0)) ≡ true = ground arith in
      let set' : (not (state.fn == 0)) ≡ true = ground arith in
      rw (set, set')
        (is_in_loop-within depth_max (t.depth a) (set_state hsm a) hsm a state u any refl
          (tree.shallow a) (λ e. absurd (omega arith)))
