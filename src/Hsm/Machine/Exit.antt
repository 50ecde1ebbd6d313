-- ===== src/Hsm/Machine/Exit.antt =====
-- hsm_exit_state and hsm_exit on a tree of states: the exit actions, from a state upwards.
use amast.Common.{ℕ, zero, suc, ◌-◌, ◌≤◌, ◌<◌, ◌≡◌, inl, inr, refl, arith, true, ltb, ok}
use amast.Hsm.{State, Hsm, Answer, set_state}
use amast.Hsm.Machine.{exit_state, exit_loop}
use amast.Hsm.Machine.Tree.{Tree, IsTree, up, exits, up-is_same, is_same_refl, depth-parent}

-- the descriptor in state `s`, with the level `d`
abbrev pub at_level : Hsm → State → ℕ → Hsm
at_level hsm s d = set_state (record hsm { hierarchy_level = d }) s

module _ {U : Type 0} {handle : ℕ → Hsm → ℕ → U → Answer × U} {t : Tree U}
    (tree : IsTree handle t) where
  pub exit_state-at :
      (hsm : Hsm) (s : State) (d : ℕ) (u : U)
      → 0 < t.depth s
      → 0 < d
      → exit_state handle (at_level hsm s d) u
        ≡ ok (at_level hsm (t.parent s) (d - 1), t.on_exit s u)
  unfolding exit_state
  exit_state-at hsm s d u h pos =
      let low : ltb 0 d ≡ true = ground arith in
      let h0 = record hsm { hierarchy_level = d } in
      elim (tree.exit h0 s u h) [
        | inl e ↦
            rw (tree.below_top s h, e, tree.empty h0 s (t.on_exit s u) h, tree.below_top s h, low)
              refl
        | inr e ↦ rw (tree.below_top s h, e, low) refl
      ]

  pub exit_loop-at :
      (cnt k : ℕ) (hsm : Hsm) (s : State) (d : ℕ) (u : U)
      → k < cnt
      → k ≤ t.depth s
      → k ≤ d
      → exit_loop handle cnt (at_level hsm s d) (up t k s) u
        ≡ ok (at_level hsm (up t k s) (d - k), exits t k s u)
  unfolding exit_loop
  exit_loop-at zero k hsm s d u c h l = absurd (omega arith)
  exit_loop-at (suc cnt) zero hsm s d u c h l =
      let e : d - 0 ≡ d = omega arith in rw (is_same_refl s, e) refl
  exit_loop-at (suc cnt) (suc k) hsm s d u c h l =
      let p = depth-parent tree s (omega arith) in
      let more : ltb 0 cnt ≡ true = ground arith in
      let e : d - 1 - k ≡ d - suc k = omega arith in
      rw
        (
          up-is_same tree k s h,
          exit_state-at hsm s d u (omega arith) (omega arith),
          more,
          exit_loop-at cnt k hsm (t.parent s) (d - 1) (t.on_exit s u) (omega arith)
              (omega (arith, p)) (omega arith),
          e,
        )
        refl
