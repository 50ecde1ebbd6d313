-- ===== src/Hsm/Machine/Lca.antt =====
-- The loop of hsm_transition that looks for the least common ancestor of source and target.
use amast.Common.{
  ℕ, zero, suc, ◌+◌, ◌-◌, ◌≤◌, ◌<◌, ◌≡◌, ◌≢◌, inl, inr, refl, sym, ap, ◌∙◌, arith, Bool-cases, true,
  false, ltb, leb, ◌&&◌, ◌==◌, Checked, ok,
}
use amast.Hsm.{StatePath, State, Hsm, Answer, is_same, depth_max, top}
use amast.Hsm.Machine.{lca_loop}
use amast.Hsm.Machine.Tree.{
  Tree, IsTree, up, exits, enters, settle, depth-up, depth-parent, up_all, is_same_refl, is_same-ne,
}
use amast.Hsm.Machine.Exit.{at_level, exit_state-at}
use amast.Hsm.Machine.Build.{Climbs}
use amast.Hsm.Machine.Enter.{enter_and_init-settle}

-- The m-th superstate of `src` is the n-th one of `dst`, and none below it is a superstate of
-- `dst` or `dst` itself.
pub record IsLca {U : Type 0} (t : Tree U) (src dst : State) (m n : ℕ) : Type 0 where
  pub common : up t m src ≡ up t n dst
  pub above_src : m ≤ t.depth src
  pub above_dst : n ≤ t.depth dst
  pub apart : (i l : ℕ) → i < m → l ≤ t.depth dst → up t i src ≢ up t l dst

module _ {U : Type 0} (t : Tree U) where
  -- where a machine comes to rest that enters `n` states down to `dst`
  abbrev pub rest : Hsm → State → ℕ → U → Checked (Hsm × U)
  rest hsm dst n u =
      let (r, v) = settle t (depth_max + 1) dst (enters t n dst u) in
      ok (at_level hsm r (t.depth r), v)

module _ {U : Type 0} {handle : ℕ → Hsm → ℕ → U → Answer × U} {t : Tree U}
    (tree : IsTree handle t) where
  pub Climbs-prefix :
      (s : State) (n k : ℕ) (p : StatePath)
      → Climbs t s n p
      → k ≤ n
      → Climbs t s k (record p { len = k })
  Climbs-prefix s n k p c h = record { len = refl; state = λ i l. c.state i (omega arith) }

  IsLca-parent :
      (src dst : State) (m n : ℕ) → IsLca t src dst (suc m) n → IsLca t (t.parent src) dst m n
  IsLca-parent src dst m n a =
      let e = depth-parent tree src (omega (arith, a.above_src)) in
      record {
        common = a.common;
        above_src = omega (arith, a.above_src, e);
        above_dst = a.above_dst;
        apart = λ i l h k. a.apart (suc i) l (omega arith) k;
      }

  pub IsLca-depth :
      (src dst : State) (m n : ℕ) → IsLca t src dst m n → t.depth src - m ≡ t.depth dst - n
  IsLca-depth src dst m n a =
      sym (depth-up tree m src a.above_src)
      ∙ (ap t.depth a.common ∙ depth-up tree n dst a.above_dst)

  -- the loop's last round below am_hsm_top, in the least common ancestor
  lca_loop-found :
      (cnt n : ℕ) (hsm : Hsm) (s dst : State) (p : StatePath) (u : U)
      → IsLca t s dst 0 n
      → Climbs t dst (t.depth dst) p
      → 0 < t.depth s
      → 0 < cnt
      → lca_loop handle (suc cnt) (at_level hsm s (t.depth s)) p u ≡ rest t hsm dst n u
  unfolding lca_loop
  lca_loop-found cnt n hsm s dst p u a c pos more =
      let same = IsLca-depth s dst 0 n a in
      let go : ltb 0 cnt ≡ true = ground arith in
      let high : leb (t.depth s) (t.depth dst) ≡ true = ground arith in
      let index : t.depth dst - t.depth s ≡ n = omega (arith, a.above_dst) in
      let here : p.state n ≡ s = c.state n (omega arith) ∙ sym a.common in
      rw (tree.below_top s pos, go, c.len, high, index, here, is_same_refl s)
        (enter_and_init-settle tree n (t.depth s) (record p { len = n }) dst s hsm u
          (Climbs-prefix dst (t.depth dst) n p c a.above_dst) (c.state 0 (omega arith))
          (omega arith) (omega arith))

  -- the loop at am_hsm_top
  lca_loop-top :
      (cnt n : ℕ) (hsm : Hsm) (dst : State) (p : StatePath) (u : U)
      → IsLca t top dst 0 n
      → Climbs t dst (t.depth dst) p
      → 0 < t.depth dst
      → lca_loop handle (suc cnt) (at_level hsm top (t.depth top)) p u ≡ rest t hsm dst n u
  unfolding lca_loop
  lca_loop-top cnt n hsm dst p u a c pos =
      let same = IsLca-depth top dst 0 n a in
      let whole : n ≡ t.depth dst = omega (arith, a.above_dst, tree.root) in
      rw (tree.root, whole)
        (enter_and_init-settle tree (t.depth dst) 0 p dst top hsm u c (c.state 0 pos) pos
          (omega arith))

  pub lca_loop-rest :
      (cnt m n : ℕ) (hsm : Hsm) (s dst : State) (p : StatePath) (u : U)
      → IsLca t s dst m n
      → Climbs t dst (t.depth dst) p
      → 0 < t.depth dst
      → t.depth s < cnt
      → lca_loop handle cnt (at_level hsm s (t.depth s)) p u ≡ rest t hsm dst n (exits t m s u)
  unfolding lca_loop
  lca_loop-rest zero m n hsm s dst p u a c pos f = absurd (omega arith)
  lca_loop-rest (suc cnt) zero n hsm s dst p u a c pos f = elim (Bool-cases (t.depth s == 0)) [
    | inr e ↦ lca_loop-found cnt n hsm s dst p u a c (ground arith) (ground arith)
    | inl e ↦
        let none_left : t.depth s ≡ 0 = ground arith in
        let whole : t.depth dst ≡ n = omega (arith, a.above_dst, IsLca-depth s dst 0 n a) in
        let s_top : s ≡ top = a.common ∙ (rw whole at (up_all tree dst pos)) in
        let a' = rw s_top at a in rw s_top (lca_loop-top cnt n hsm dst p u a' c pos)
  ]
  lca_loop-rest (suc cnt) (suc m) n hsm s dst p u a c pos f =
      let low : 0 < t.depth s = omega (arith, a.above_src) in
      let go : ltb 0 cnt ≡ true = ground arith in
      let parent = depth-parent tree s low in
      let i = p.len - t.depth s in
      let off : (leb (t.depth s) p.len && is_same s (p.state i)) ≡ false =
        elim (Bool-cases (leb (t.depth s) p.len)) [
          | inr e ↦ rw e refl
          | inl e ↦
              let high : i < t.depth dst = ground (arith, c.len) in
              rw (e, c.state i high)
                (is_same-ne s (up t i dst) (a.apart 0 i (omega arith) (omega arith)))
        ] in
      rw (tree.below_top s low, go, off, exit_state-at tree hsm s (t.depth s) u low low, sym parent)
        (lca_loop-rest cnt m n hsm (t.parent s) dst p (t.on_exit s u) (IsLca-parent s dst m n a) c
          pos (omega (arith, parent)))
