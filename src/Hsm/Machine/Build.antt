-- ===== src/Hsm/Machine/Build.antt =====
-- hsm_build on a tree of states: the path from a state to its superstates.
use amast.Common.{
  ℕ, zero, suc, ◌+◌, ◌≤◌, ◌<◌, ◌≡◌, inl, inr, refl, sym, ap, subst, ◌∙◌, arith, Bool-cases, true,
  false, ltb, ◌==◌, Returns, Option, some,
}
use amast.Hsm.{StatePath, extend, path_of, is_till, State, Hsm, Answer, set_state, depth_max, top}
use amast.Hsm.Machine.{build, build_loop}
use amast.Hsm.Machine.Tree.{
  Tree, IsTree, up, call-empty, up-is_same, is_same_refl, is_same-top, up-is_same_flip,
  depth-parent,
}

-- The path holds `s` and its superstates, `n` states in all.
pub record Climbs {U : Type 0} (t : Tree U) (s : State) (n : ℕ) (p : StatePath) : Type 0 where
  pub len : p.len ≡ n
  pub state : (i : ℕ) → i < n → p.state i ≡ up t i s

module _ {U : Type 0} (t : Tree U) where
  up-suc : (k : ℕ) (s : State) → up t (suc k) s ≡ t.parent (up t k s)
  up-suc zero s = refl
  up-suc (suc k) s = up-suc k (t.parent s)

  Climbs-extend :
      (s r : State) (j : ℕ) (p : StatePath)
      → Climbs t s j p
      → up t j s ≡ r
      → Climbs t s (suc j) (extend p r)
  Climbs-extend s r j p c e = record {
    len = omega (arith, c.len);
    state = λ i h.
        let eq = c.state i in
        rw c.len (elim (Bool-cases (j == i)) [
          | inl a ↦ let j_i : j ≡ i = ground arith in rw (a, sym j_i) (sym e)
          | inr a ↦ rw a (eq (ground arith))
        ]);
  }

  pub path_of-Climbs : (s : State) → Climbs t s 1 (path_of s)
  path_of-Climbs s = record {
    len = refl;
    state = λ i h. let z : 0 ≡ i = omega arith in rw (sym z) refl;
  }

module _ {U : Type 0} {handle : ℕ → Hsm → ℕ → U → Answer × U} {t : Tree U}
    (tree : IsTree handle t) where
  -- up to a superstate, with no state on the way at which the climb stops
  build_loop-until :
      (fuel : ℕ) (hsm : Hsm) (p : StatePath) (s r : State) (j k : ℕ) (till : Option State) (u : U)
      → Climbs t s j p
      → up t j s ≡ r
      → k ≤ t.depth r
      → k < fuel
      → j + k ≤ depth_max
      → ((i : ℕ) → i < k → is_till till (up t i r) ≡ false)
      → Returns
          (λ (q, v). Climbs t s (j + k) q × (v ≡ u))
          (build_loop handle fuel (set_state hsm r) p (up t k r) till u)
  unfolding build_loop
  build_loop-until zero hsm p s r j k till u c e d f m free = absurd (omega arith)
  build_loop-until (suc fuel) hsm p s r j zero till u c e d f m free =
      let j0 : j ≡ j + 0 = omega arith in
      rw (is_same_refl r) (subst (λ n. Climbs t s n p) j0 c, refl)
  build_loop-until (suc fuel) hsm p s r j (suc k) till u c e d f m free =
      let room : ltb p.len depth_max ≡ true = ground (arith, c.len) in
      let parent = depth-parent tree r (omega arith) in
      let e' = up-suc t j s ∙ ap t.parent e in
      let rest =
        build_loop-until fuel hsm (extend p r) s (t.parent r) (suc j) k till u
          (Climbs-extend t s r j p c e) e' (omega (arith, parent)) (omega arith) (omega arith)
          (λ i h. free (suc i) (omega arith)) in
      let sum : suc j + k ≡ j + suc k = omega arith in
      rw (up-is_same tree k r d, room, free 0 (omega arith), call-empty tree hsm r u (omega arith))
        (rw sum at rest)

  -- up to a superstate `till` of a state, below am_hsm_top
  build_loop-till :
      (fuel : ℕ) (hsm : Hsm) (p : StatePath) (s r : State) (j k : ℕ) (u : U)
      → Climbs t s j p
      → up t j s ≡ r
      → k < t.depth r
      → k < fuel
      → j + k < depth_max
      → Returns
          (λ (q, v). Climbs t s (j + suc k) q × (v ≡ u))
          (build_loop handle fuel (set_state hsm r) p top (some (up t k r)) u)
  unfolding build_loop
  build_loop-till zero hsm p s r j k u c e d f m = absurd (omega arith)
  build_loop-till (suc fuel) hsm p s r j zero u c e d f m =
      let room : ltb p.len depth_max ≡ true = ground (arith, c.len) in
      let j1 : suc j ≡ j + 1 = omega arith in
      rw (is_same-top tree r d, room, is_same_refl r)
        (subst (λ n. Climbs t s n (extend p r)) j1 (Climbs-extend t s r j p c e), refl)
  build_loop-till (suc fuel) hsm p s r j (suc k) u c e d f m =
      let room : ltb p.len depth_max ≡ true = ground (arith, c.len) in
      let parent = depth-parent tree r (omega arith) in
      let e' = up-suc t j s ∙ ap t.parent e in
      let rest =
        build_loop-till fuel hsm (extend p r) s (t.parent r) (suc j) k u
          (Climbs-extend t s r j p c e) e' (omega (arith, parent)) (omega arith) (omega arith) in
      let sum : suc j + suc k ≡ j + suc (suc k) = omega arith in
      rw
        (
          is_same-top tree r (omega arith),
          room,
          up-is_same_flip tree k r (omega arith),
          call-empty tree hsm r u (omega arith),
        )
        (rw sum at rest)

  -- hsm_build from a state until its k-th superstate
  pub build-until :
      (hsm : Hsm) (s : State) (k : ℕ) (till : Option State) (u : U)
      → 0 < k
      → k ≤ t.depth s
      → t.depth s ≤ depth_max
      → ((i : ℕ) → i < k → is_till till (up t i s) ≡ false)
      → Returns (λ (q, v). Climbs t s k q × (v ≡ u)) (build handle hsm s (up t k s) till u)
  unfolding build
  build-until hsm s zero till u pos d m free = absurd (omega arith)
  build-until hsm s (suc k) till u pos d m free =
      let parent = depth-parent tree s (omega arith) in
      let sum : 1 + k ≡ suc k = omega arith in
      rw (free 0 pos, call-empty tree hsm s u (omega arith))
        (rw sum at (
          build_loop-until depth_max hsm (path_of s) s (t.parent s) 1 k till u (path_of-Climbs t s)
            refl (omega (arith, parent)) (omega arith) (omega arith)
            (λ i h. free (suc i) (omega arith))))

  -- hsm_build from a state to its k-th superstate, which is not am_hsm_top
  pub build-till :
      (hsm : Hsm) (s : State) (k : ℕ) (u : U)
      → 0 < k
      → k < t.depth s
      → t.depth s ≤ depth_max
      → Returns
          (λ (q, v). Climbs t s (suc k) q × (v ≡ u))
          (build handle hsm s top (some (up t k s)) u)
  unfolding build
  build-till hsm s zero u pos d m = absurd (omega arith)
  build-till hsm s (suc k) u pos d m =
      let parent = depth-parent tree s (omega arith) in
      let sum : 1 + suc k ≡ suc (suc k) = omega arith in
      rw (up-is_same_flip tree k s (omega arith), call-empty tree hsm s u (omega arith))
        (rw sum at (
          build_loop-till depth_max hsm (path_of s) s (t.parent s) 1 k u (path_of-Climbs t s) refl
            (omega (arith, parent)) (omega arith) (omega arith)))
