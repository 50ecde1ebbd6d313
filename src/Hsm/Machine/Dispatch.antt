-- ===== src/Hsm/Machine/Dispatch.antt =====
-- am_hsm_dispatch on a tree of states: the event goes up the superstates of the active state until
-- one of them answers.
use amast.Common.{
  ℕ, zero, suc, ◌+◌, ◌≤◌, ◌<◌, ◌≡◌, ◌≢◌, ◌⊎◌, inl, inr, Bool, true, false, refl, ap, arith, not,
  ◌>>=◌, ◌>>◌, ltb, leb, ◌==◌, ok, check,
}
use amast.Hsm.{
  is_super, is_redispatch, State, Hsm, handled, tran, tran_redispatch, Answer, go_super, go_tran,
  go_tran_redispatch, say_handled, say_coro_busy, say_coro_done, coro_busy, coro_done, answered,
  set_state, set_active_state, depth_max, top, evt_user,
}
use amast.Hsm.Machine.{propagate, dispatch_event, dispatch}
use amast.Hsm.Machine.Tree.{Tree, IsTree, up, exits, enters, settle, up_all, depth-parent}
use amast.Hsm.Machine.Exit.{at_level}
use amast.Hsm.Machine.Lca.{IsLca, rest}
use amast.Hsm.Machine.Transition.{legs, transition-rest}

-- what the handler of `s` is shown while `a` is the active state
abbrev pub seen : Hsm → (a s : State) → Hsm
seen hsm a s = set_active_state (set_state hsm s) a

-- the answers that end an event without a transition
abbrev pub is_final : Answer → Bool
is_final say_handled = true
is_final say_coro_busy = true
is_final say_coro_done = true
is_final _ = false

module _ {U : Type 0} (handle : ℕ → Hsm → ℕ → U → Answer × U) (t : Tree U) where
  -- `s` and the next states above it, `k` in all, pass the event on; `us` is the user's data
  unfoldable pub Passes : Hsm → (a s : State) → (event k : ℕ) → (ℕ → U) → Type 0
  Passes hsm a s event k us =
      (i : ℕ)
      → i < k
      → handle (up t i s).fn (seen hsm a (up t i s)) event (us i)
        ≡ (go_super (t.parent (up t i s)), us (suc i))

module _ {U : Type 0} {handle : ℕ → Hsm → ℕ → U → Answer × U} {t : Tree U}
    (tree : IsTree handle t) where
  propagate-answered :
      (cnt k : ℕ) (hsm : Hsm) (a s : State) (event : ℕ) (us : ℕ → U) (answer : Answer) (v : U)
      → Passes handle t hsm a s event k us
      → k < t.depth s
      → suc k < cnt
      → let r = up t k s in
        let (rc, hsm') = answered (seen hsm a r) answer in
        handle r.fn (seen hsm a r) event (us k) ≡ (answer, v)
        → is_super rc ≡ false
        → propagate handle cnt (set_state hsm s) a event (us 0) ≡ ok (rc, r, hsm', v)
  unfolding propagate Passes
  propagate-answered zero k hsm a s event us answer v p d c e f = absurd (omega arith)
  propagate-answered (suc cnt) zero hsm a s event us answer v p d c e f =
      let more : ltb 0 cnt ≡ true = ground arith in rw (more, tree.below_top s d, e, f) refl
  propagate-answered (suc cnt) (suc k) hsm a s event us answer v p d c e f =
      let more : ltb 0 cnt ≡ true = ground arith in
      let parent = depth-parent tree s (omega arith) in
      rw (more, tree.below_top s (omega arith), p 0 (omega arith))
        (propagate-answered cnt k hsm a (t.parent s) event (λ i. us (suc i)) answer v
          (λ i l. p (suc i) (omega arith)) (omega (arith, parent)) (omega arith) e f)

  -- nobody answers: the event ends in am_hsm_top
  propagate-top :
      (cnt k : ℕ) (hsm : Hsm) (a s : State) (event : ℕ) (us : ℕ → U)
      → Passes handle t hsm a s event k us
      → k ≤ t.depth s
      → suc k < cnt
      → up t k s ≡ top
      → propagate handle cnt (set_state hsm s) a event (us 0)
        ≡ ok (handled, top, seen hsm a top, us k)
  unfolding propagate Passes
  propagate-top zero k hsm a s event us p d c e = absurd (omega arith)
  propagate-top (suc cnt) zero hsm a s event us p d c e =
      let more : ltb 0 cnt ≡ true = ground arith in rw (e, more) refl
  propagate-top (suc cnt) (suc k) hsm a s event us p d c e =
      let more : ltb 0 cnt ≡ true = ground arith in
      let parent = depth-parent tree s (omega arith) in
      rw (more, tree.below_top s (omega arith), p 0 (omega arith))
        (propagate-top cnt k hsm a (t.parent s) event (λ i. us (suc i))
          (λ i l. p (suc i) (omega arith)) (omega (arith, parent)) (omega arith) e)

  dispatch_event-tran :
      (k m n : ℕ) (hsm : Hsm) (a dst : State) (event : ℕ) (us : ℕ → U) (v : U)
      → k < t.depth a
      → 0 < t.depth dst
      → let r = up t k a in
        let start = at_level hsm a (t.depth a) in
        Passes handle t start a a event k us
        → handle r.fn (seen start a r) event (us k) ≡ (go_tran dst, v)
        → IsLca t r dst m n
        → let (up_legs, down_legs) = legs m n in
          let (q, w) =
            settle t
              (depth_max + 1)
              dst
              (enters t down_legs dst (exits t up_legs r (exits t k a v))) in
          dispatch_event handle start event (us 0) ≡ ok (tran, at_level hsm q (t.depth q), w)
  unfolding dispatch_event
  dispatch_event-tran k m n hsm a dst event us v d low p e l =
      let start = at_level hsm a (t.depth a) in
      let first =
        propagate-answered depth_max k start a a event us (go_tran dst) v p d
          (omega (arith, tree.shallow a)) e refl in
      rw (first, tree.below_top dst low, transition-rest tree k m n hsm a dst v d low l) refl

  dispatch_event-redispatch :
      (k m n : ℕ) (hsm : Hsm) (a dst : State) (event : ℕ) (us : ℕ → U) (v : U)
      → k < t.depth a
      → 0 < t.depth dst
      → let r = up t k a in
        let start = at_level hsm a (t.depth a) in
        Passes handle t start a a event k us
        → handle r.fn (seen start a r) event (us k) ≡ (go_tran_redispatch dst, v)
        → IsLca t r dst m n
        → let (up_legs, down_legs) = legs m n in
          let (q, w) =
            settle t
              (depth_max + 1)
              dst
              (enters t down_legs dst (exits t up_legs r (exits t k a v))) in
          dispatch_event handle start event (us 0)
          ≡ ok (tran_redispatch, at_level hsm q (t.depth q), w)
  unfolding dispatch_event
  dispatch_event-redispatch k m n hsm a dst event us v d low p e l =
      let start = at_level hsm a (t.depth a) in
      let first =
        propagate-answered depth_max k start a a event us (go_tran_redispatch dst) v p d
          (omega (arith, tree.shallow a)) e refl in
      rw (first, tree.below_top dst low, transition-rest tree k m n hsm a dst v d low l) refl

  -- On a started machine that is not dispatching, with handlers that form a tree, an event that the
  -- k-th superstate of the active state answers by a transition with a redispatch, all below it
  -- having passed it on: am_hsm_dispatch makes the transition, as for one without, then dispatches
  -- the event once more, in the state that the machine has come to, and fails an assertion if this
  -- asks for a redispatch again.
  pub dispatch_redispatched :
      (k m n : ℕ) (hsm : Hsm) (a dst : State) (event : ℕ) (us : ℕ → U) (v : U)
      → hsm.start_called ≡ true
      → a.fn ≢ 0
      → evt_user ≤ event
      → k < t.depth a
      → 0 < t.depth dst
      → let r = up t k a in
        let working = record hsm { dispatch_in_progress = true } in
        let busy = at_level working a (t.depth a) in
        Passes handle t busy a a event k us
        → handle r.fn (seen busy a r) event (us k) ≡ (go_tran_redispatch dst, v)
        → IsLca t r dst m n
        → let (up_legs, down_legs) = legs m n in
          let (q, w) =
            settle t
              (depth_max + 1)
              dst
              (enters t down_legs dst (exits t up_legs r (exits t k a v))) in
          let idle = record hsm { dispatch_in_progress = false } in
          dispatch handle (at_level idle a (t.depth a)) event (us 0) ≡ (
            dispatch_event handle (at_level working q (t.depth q)) event w >>= λ (rc, hsm', u).
            check (not (is_redispatch rc)) >> ok (record hsm' { dispatch_in_progress = false }, u))
  unfolding dispatch
  dispatch_redispatched k m n hsm a dst event us v st ne h d low p e l =
      let set : (not (a.fn == 0)) ≡ true = ground arith in
      let user : leb evt_user event ≡ true = ground arith in
      let once =
        dispatch_event-redispatch k m n (record hsm { dispatch_in_progress = true }) a dst event us
          v d low p e l in
      rw (set, ap check st, user, once) refl

  -- On a started machine that is not dispatching, with handlers that form a tree, an event of the
  -- user that the k-th superstate of the active state answers by a transition, all below it having
  -- passed it on: am_hsm_dispatch fails no assertion. It exits the states from the active one up
  -- to the least common ancestor of that superstate and the target, enters those from there down
  -- to the target, follows the initial transitions, and ends idle in the state that they lead to.
  pub dispatch-rest :
      (k m n : ℕ) (hsm : Hsm) (a dst : State) (event : ℕ) (us : ℕ → U) (v : U)
      → hsm.start_called ≡ true
      → a.fn ≢ 0
      → evt_user ≤ event
      → k < t.depth a
      → 0 < t.depth dst
      → let r = up t k a in
        let busy = at_level (record hsm { dispatch_in_progress = true }) a (t.depth a) in
        Passes handle t busy a a event k us
        → handle r.fn (seen busy a r) event (us k) ≡ (go_tran dst, v)
        → IsLca t r dst m n
        → let idle = record hsm { dispatch_in_progress = false } in
          let (up_legs, down_legs) = legs m n in
          dispatch handle (at_level idle a (t.depth a)) event (us 0)
          ≡ rest t idle dst down_legs (exits t up_legs r (exits t k a v))
  unfolding dispatch
  dispatch-rest k m n hsm a dst event us v st ne h d low p e l =
      let set : (not (a.fn == 0)) ≡ true = ground arith in
      let user : leb evt_user event ≡ true = ground arith in
      let once =
        dispatch_event-tran k m n (record hsm { dispatch_in_progress = true }) a dst event us v d
          low p e l in
      rw (set, ap check st, user, once) refl

  dispatch_event-final :
      (k : ℕ) (hsm : Hsm) (a : State) (event : ℕ) (us : ℕ → U) (answer : Answer) (v : U)
      → k < t.depth a
      → is_final answer ≡ true
      → let r = up t k a in
        let start = at_level hsm a (t.depth a) in
        Passes handle t start a a event k us
        → handle r.fn (seen start a r) event (us k) ≡ (answer, v)
        → let run = dispatch_event handle start event (us 0) in
          (run ≡ ok (handled, start, v))
          ⊎ ((run ≡ ok (coro_busy, start, v)) ⊎ (run ≡ ok (coro_done, start, v)))
  unfolding dispatch_event
  dispatch_event-final k hsm a event us say_handled v d q p e =
      let start = at_level hsm a (t.depth a) in
      inl (
        rw
          (propagate-answered depth_max k start a a event us say_handled v p d
            (omega (arith, tree.shallow a)) e refl)
          refl)
  dispatch_event-final k hsm a event us say_coro_busy v d q p e =
      let start = at_level hsm a (t.depth a) in
      inr (
        inl (
          rw
            (propagate-answered depth_max k start a a event us say_coro_busy v p d
              (omega (arith, tree.shallow a)) e refl)
            refl))
  dispatch_event-final k hsm a event us say_coro_done v d q p e =
      let start = at_level hsm a (t.depth a) in
      inr (
        inr (
          rw
            (propagate-answered depth_max k start a a event us say_coro_done v p d
              (omega (arith, tree.shallow a)) e refl)
            refl))
  dispatch_event-final k hsm a event us (go_tran s) v d q p e = absurd cc
  dispatch_event-final k hsm a event us (go_tran_redispatch s) v d q p e = absurd cc
  dispatch_event-final k hsm a event us (go_super s) v d q p e = absurd cc

  dispatch_event-ignored :
      (hsm : Hsm) (a : State) (event : ℕ) (us : ℕ → U)
      → 0 < t.depth a
      → t.depth a + 1 < depth_max
      → let start = at_level hsm a (t.depth a) in
        Passes handle t start a a event (t.depth a) us
        → dispatch_event handle start event (us 0) ≡ ok (handled, start, us (t.depth a))
  unfolding dispatch_event
  dispatch_event-ignored hsm a event us pos m p =
      let start = at_level hsm a (t.depth a) in
      let first =
        propagate-top depth_max (t.depth a) start a a event us p (omega arith) (omega arith)
          (up_all tree a pos) in
      rw first refl

  -- On a started machine that is not dispatching, with handlers that form a tree, an event that the
  -- active state and all its superstates pass on: am_hsm_dispatch fails no assertion and leaves the
  -- descriptor as it was, if the active state's depth is at most AM_HSM_HIERARCHY_DEPTH_MAX - 2.
  pub dispatch_ignored :
      (hsm : Hsm) (a : State) (event : ℕ) (us : ℕ → U)
      → hsm.start_called ≡ true
      → a.fn ≢ 0
      → evt_user ≤ event
      → 0 < t.depth a
      → t.depth a + 1 < depth_max
      → let busy = at_level (record hsm { dispatch_in_progress = true }) a (t.depth a) in
        Passes handle t busy a a event (t.depth a) us
        → let idle = at_level (record hsm { dispatch_in_progress = false }) a (t.depth a) in
          dispatch handle idle event (us 0) ≡ ok (idle, us (t.depth a))
  unfolding dispatch
  dispatch_ignored hsm a event us st ne h pos m p =
      let set : (not (a.fn == 0)) ≡ true = ground arith in
      let user : leb evt_user event ≡ true = ground arith in
      let once =
        dispatch_event-ignored (record hsm { dispatch_in_progress = true }) a event us pos m p in
      rw (set, ap check st, user, once) refl

  -- On a started machine that is not dispatching, with handlers that form a tree, an event that the
  -- k-th superstate of the active state handles, itself or in a coroutine, all below it having
  -- passed it on: am_hsm_dispatch fails no assertion and leaves the descriptor as it was; the
  -- handler's change of the user's data stays.
  pub dispatch_handled :
      (k : ℕ) (hsm : Hsm) (a : State) (event : ℕ) (us : ℕ → U) (answer : Answer) (v : U)
      → hsm.start_called ≡ true
      → a.fn ≢ 0
      → evt_user ≤ event
      → k < t.depth a
      → is_final answer ≡ true
      → let r = up t k a in
        let busy = at_level (record hsm { dispatch_in_progress = true }) a (t.depth a) in
        Passes handle t busy a a event k us
        → handle r.fn (seen busy a r) event (us k) ≡ (answer, v)
        → let idle = at_level (record hsm { dispatch_in_progress = false }) a (t.depth a) in
          dispatch handle idle event (us 0) ≡ ok (idle, v)
  unfolding dispatch
  dispatch_handled k hsm a event us answer v st ne h d q p e =
      let set : (not (a.fn == 0)) ≡ true = ground arith in
      let user : leb evt_user event ≡ true = ground arith in
      let once =
        dispatch_event-final k (record hsm { dispatch_in_progress = true }) a event us answer v d q
          p e in
      elim once [
        | inl o ↦ rw (set, ap check st, user, o) refl
        | inr o ↦ elim o [
          | inl o' ↦ rw (set, ap check st, user, o') refl
          | inr o' ↦ rw (set, ap check st, user, o') refl
        ]
      ]
