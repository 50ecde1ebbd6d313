-- ===== src/Hsm/Machine/Transition.antt =====
-- hsm_transition on a tree of states: the exit actions up to the least common ancestor of source
-- and target, the entry actions from there down, and the initial transitions of the target.
use amast.Common.{
  ℕ, zero, suc, ◌-◌, ◌≤◌, ◌<◌, ◌≡◌, refl, sym, ◌∙◌, arith, false, ok, Returns-value, some,
}
use amast.Hsm.{path_of, State, Hsm, Answer, is_same, depth_max, top}
use amast.Hsm.Machine.{exit, build, transition}
use amast.Hsm.Machine.Tree.{
  Tree, IsTree, up, exits, depth-up, up_all, up-is_same, up-is_same_flip, is_same_refl, is_same-ne,
}
use amast.Hsm.Machine.Exit.{at_level, exit_state-at, exit_loop-at}
use amast.Hsm.Machine.Build.{build-until, build-till, path_of-Climbs}
use amast.Hsm.Machine.Enter.{enter_and_init-settle}
use amast.Hsm.Machine.Lca.{IsLca, IsLca-depth, Climbs-prefix, lca_loop-rest, rest}

-- The states to leave and to enter: a transition to the source itself leaves and enters it.
abbrev pub legs : ℕ → ℕ → ℕ × ℕ
legs zero zero = (1, 1)
legs m n = (m, n)

module _ {U : Type 0} {handle : ℕ → Hsm → ℕ → U → Answer × U} {t : Tree U}
    (tree : IsTree handle t) where
  -- the first part of hsm_transition: the substates of the source are left
  pub exit-src :
      (k : ℕ) (hsm : Hsm) (s : State) (u : U)
      → k ≤ t.depth s
      → exit handle (at_level hsm s (t.depth s)) (up t k s) u
        ≡ ok (at_level hsm (up t k s) (t.depth (up t k s)), exits t k s u)
  unfolding exit
  exit-src k hsm s u h =
      rw (depth-up tree k s h)
        (exit_loop-at tree depth_max k hsm s (t.depth s) u (omega (arith, tree.shallow s)) h h)

  -- hsm_transition in the source, which is the target
  self-rest :
      (hsm : Hsm) (s : State) (u : U)
      → 0 < t.depth s
      → transition handle (at_level hsm s (t.depth s)) s s u ≡ rest t hsm s 1 (t.on_exit s u)
  unfolding transition
  self-rest hsm s u pos =
      rw (is_same_refl s, exit_state-at tree hsm s (t.depth s) u pos pos)
        (enter_and_init-settle tree 1 (t.depth s - 1) (path_of s) s (t.parent s) hsm (t.on_exit s u)
          (path_of-Climbs t s) refl pos (omega arith))

  -- hsm_transition in the source, which is a superstate of the target
  down-rest :
      (k : ℕ) (hsm : Hsm) (dst : State) (u : U)
      → suc k < t.depth dst
      → let src = up t (suc k) dst in
        transition handle (at_level hsm src (t.depth src)) src dst u ≡ rest t hsm dst (suc k) u
  unfolding transition
  down-rest k hsm dst u h =
      let src = up t (suc k) dst in
      let start = at_level hsm src (t.depth src) in
      let level = depth-up tree (suc k) dst (omega arith) in
      let (q, built, (climbs, same)) =
        Returns-value _ (build handle start dst top (some src) u)
          (build-till tree start dst (suc k) u (omega arith) h (omega (arith, tree.shallow dst))) in
      let last : q.0.len - 1 ≡ suc k = omega (arith, climbs.len) in
      rw
        (
          is_same_refl src,
          up-is_same_flip tree k dst (omega arith),
          built,
          last,
          climbs.state (suc k) (omega arith),
          is_same_refl src,
          same,
        )
        (enter_and_init-settle tree (suc k) (t.depth src) (record q.0 { len = suc k }) dst src hsm u
          (Climbs-prefix tree dst (suc (suc k)) (suc k) q.0 climbs (omega arith))
          (climbs.state 0 (omega arith)) (omega arith) (omega (arith, level)))

  -- hsm_transition in the source, which is not the target nor a superstate of it
  across-rest :
      (m n : ℕ) (hsm : Hsm) (src dst : State) (u : U)
      → IsLca t src dst (suc m) n
      → 0 < t.depth dst
      → transition handle (at_level hsm src (t.depth src)) src dst u
        ≡ rest t hsm dst n (exits t (suc m) src u)
  unfolding transition
  across-rest m n hsm src dst u a pos =
      let start = at_level hsm src (t.depth src) in
      let off : (i : ℕ) → i < t.depth dst → is_same src (up t i dst) ≡ false =
        λ i l. is_same-ne src (up t i dst) (a.apart 0 i (omega arith) (omega arith)) in
      let b = rw (up_all tree dst pos) at (
        build-until tree start dst (t.depth dst) (some src) u pos (omega arith)
          (omega (arith, tree.shallow dst)) off) in
      let (q, built, (climbs, same)) =
        Returns-value _ (build handle start dst top (some src) u) b in
      let i = q.0.len - 1 in
      let last : is_same (q.0.state i) src ≡ false =
        rw (climbs.state i (omega (arith, climbs.len))) (
          is_same-ne (up t i dst) src
            (λ e. a.apart 0 i (omega arith) (omega (arith, climbs.len)) (sym e))) in
      rw (is_same_refl src, off 0 pos, built, last, same)
        (lca_loop-rest tree depth_max (suc m) n hsm src dst q.0 u a climbs pos (tree.shallow src))

  -- hsm_transition from a substate of the source
  transition-src :
      (k : ℕ) (hsm : Hsm) (s dst : State) (u : U)
      → k ≤ t.depth s
      → let src = up t k s in
        transition handle (at_level hsm s (t.depth s)) src dst u
        ≡ transition handle (at_level hsm src (t.depth src)) src dst (exits t k s u)
  unfolding transition
  transition-src zero hsm s dst u h = refl
  transition-src (suc k) hsm s dst u h =
      rw (up-is_same tree k s h, exit-src (suc k) hsm s u h, is_same_refl (up t (suc k) s)) refl

  src-rest :
      (m n : ℕ) (hsm : Hsm) (src dst : State) (u : U)
      → IsLca t src dst m n
      → 0 < t.depth src
      → 0 < t.depth dst
      → let (up_legs, down_legs) = legs m n in
        transition handle (at_level hsm src (t.depth src)) src dst u
        ≡ rest t hsm dst down_legs (exits t up_legs src u)
  src-rest zero zero hsm src dst u a pos low = rw (sym a.common) (self-rest hsm src u pos)
  src-rest zero (suc n) hsm src dst u a pos low =
      let level = IsLca-depth tree src dst 0 (suc n) a in
      rw a.common (down-rest n hsm dst u (omega (arith, level)))
  src-rest (suc m) n hsm src dst u a pos low = across-rest m n hsm src dst u a low

  -- A transition that a superstate `up k s` of the active state `s` asks for, with handlers that
  -- form a tree: hsm_transition fails no assertion. It runs the exit actions from the active state
  -- up to that superstate, on to the least common ancestor with the target, the entry actions from
  -- there down to the target, and its initial transitions with their entry actions, in this
  -- order, each once; a transition of a state to itself leaves and enters it. It ends in the state
  -- that the initial transitions lead to, with its depth as the level.
  pub transition-rest :
      (k m n : ℕ) (hsm : Hsm) (s dst : State) (u : U)
      → k < t.depth s
      → 0 < t.depth dst
      → IsLca t (up t k s) dst m n
      → let (up_legs, down_legs) = legs m n in
        transition handle (at_level hsm s (t.depth s)) (up t k s) dst u
        ≡ rest t hsm dst down_legs (exits t up_legs (up t k s) (exits t k s u))
  transition-rest k m n hsm s dst u h low a =
      let level = depth-up tree k s (omega arith) in
      transition-src k hsm s dst u (omega arith)
      ∙ src-rest m n hsm (up t k s) dst (exits t k s u) a (omega (arith, level)) low
