-- ===== src/Hsm/Machine/Enter.antt =====
-- hsm_enter and hsm_enter_and_init on a tree of states: entry actions, from a superstate downwards,
-- and the initial transitions behind them.
use native.Mathlib.Nat.{mod-eq_of_lt}
use amast.Common.{
  ℕ, zero, suc, ◌+◌, ◌-◌, ◌%◌, ◌^◌, ◌≤◌, ◌<◌, ◌≡◌, ◌⊎◌, inl, inr, refl, arith, true, leb, ok,
  Returns-value, Option, none, some,
}
use amast.Hsm.{StatePath, State, Hsm, Answer, set_state, depth_max}
use amast.Hsm.Machine.{enter, enter_loop, init_loop, enter_and_init, build}
use amast.Hsm.Machine.Tree.{Tree, IsTree, up, enters, settle, settle-none, settle-some, depth-up}
use amast.Hsm.Machine.Exit.{at_level}
use amast.Hsm.Machine.Build.{Climbs, build-until}

Option-cases : {A : Type 0} (o : Option A) → (o ≡ none) ⊎ ((a : A) × (o ≡ some a))
Option-cases none = inl refl
Option-cases (some a) = inr (a, refl)

module _ {U : Type 0} {handle : ℕ → Hsm → ℕ → U → Answer × U} {t : Tree U}
    (tree : IsTree handle t) where
  enter_loop-enters :
      (i : ℕ) (state : ℕ → State) (s : State) (hsm : Hsm) (u : U)
      → ((j : ℕ) → j < suc i → state j ≡ up t j s)
      → ((j : ℕ) → j < suc i → 0 < t.depth (up t j s))
      → enter_loop handle state (suc i) hsm u ≡ ok (set_state hsm s, enters t (suc i) s u)
  unfolding enter_loop
  enter_loop-enters zero state s hsm u c h = elim (tree.entry hsm s u (h 0 (omega arith))) [
    | inl e ↦ rw (c 0 (omega arith), tree.below_top s (h 0 (omega arith)), e) refl
    | inr e ↦ rw (c 0 (omega arith), tree.below_top s (h 0 (omega arith)), e) refl
  ]
  enter_loop-enters (suc i) state s hsm u c h =
      let r = up t (suc i) s in
      let low = h (suc i) (omega arith) in
      let rest =
        enter_loop-enters i state s (set_state hsm r) (t.on_entry r u) (λ j l. c j (omega arith))
          (λ j l. h j (omega arith)) in
      elim (tree.entry hsm r u low) [
        | inl e ↦ rw (c (suc i) (omega arith), tree.below_top r low, e) rest
        | inr e ↦ rw (c (suc i) (omega arith), tree.below_top r low, e) rest
      ]

  -- `n` states are entered, the last of them `s`; with none, the descriptor is left alone
  pub enter-enters :
      (n d : ℕ) (p : StatePath) (s r : State) (hsm : Hsm) (u : U)
      → Climbs t s n p
      → n ≤ t.depth s
      → d + n ≤ depth_max
      → (hsm' : Hsm) × (enter handle (at_level hsm r d) p u ≡ ok (hsm', enters t n s u))
        × (set_state hsm' s ≡ at_level hsm s (d + n))
  unfolding enter enter_loop
  enter-enters zero d p s r hsm u c h m =
      let fits : leb (d + 0) depth_max ≡ true = ground arith in
      let wrap : (d + 0) % 2 ^ 5 ≡ d + 0 = mod-eq_of_lt (omega arith) in
      (at_level hsm r (d + 0), rw (c.len, fits, wrap) refl, refl)
  enter-enters (suc i) d p s r hsm u c h m =
      let fits : leb (d + suc i) depth_max ≡ true = ground arith in
      let wrap : (d + suc i) % 2 ^ 5 ≡ d + suc i = mod-eq_of_lt (omega arith) in
      let loop =
        enter_loop-enters i p.state s (at_level hsm r d) u c.state
          (λ j l. let e = depth-up tree j s (omega arith) in omega (arith, e)) in
      (at_level hsm s (d + suc i), rw (c.len, loop, fits, wrap) refl, refl)

  init_loop-settle :
      (fuel : ℕ) (hsm : Hsm) (p : StatePath) (s : State) (u : U)
      → 0 < t.depth s
      → depth_max < fuel + t.depth s
      → p.state 0 ≡ s
      → let (r, v) = settle t fuel s u in
        init_loop handle fuel (at_level hsm s (t.depth s)) p u ≡ ok (at_level hsm r (t.depth r), v)
  unfolding init_loop
  init_loop-settle zero hsm p s u pos f c = absurd (omega (arith, tree.shallow s))
  init_loop-settle (suc fuel) hsm p s u pos f c = elim (Option-cases (t.initial s)) [
    | inl e ↦ elim (tree.settled (at_level hsm s (t.depth s)) s u pos e) [
      | inl a ↦ rw (settle-none t fuel s u e, tree.below_top s pos, a, c) refl
      | inr a ↦ rw (settle-none t fuel s u e, tree.below_top s pos, a, c) refl
    ]
    | inr (r, e) ↦
        let (k, some_k, sum, at_s) = tree.inside s r pos e in
        let v = t.on_init s u in
        let h = at_level hsm r (t.depth s) in
        let b = rw at_s at (
          build-until tree h r k none v some_k (omega (arith, sum)) (omega (arith, tree.shallow r))
            (λ i l. refl)) in
        let (q, built, (climbs, same)) = Returns-value _ (build handle h r s none v) b in
        let (h', entered, placed) =
          enter-enters k (t.depth s) q.0 r r hsm v climbs (omega (arith, sum))
            (omega (arith, sum, tree.shallow r)) in
        let level : t.depth s + k ≡ t.depth r = omega (arith, sum) in
        let count : t.depth r - t.depth s ≡ k = omega (arith, sum) in
        let rest =
          init_loop-settle fuel hsm q.0 r (enters t k r v) (omega (arith, sum)) (omega (arith, sum))
            (climbs.state 0 some_k) in
        rw
          (
            settle-some t fuel s r u e,
            tree.below_top s pos,
            tree.leads (at_level hsm s (t.depth s)) s r u pos e,
            c,
            built,
            same,
            entered,
            climbs.state 0 some_k,
            placed,
            level,
            count,
          )
          rest
  ]

  -- hsm_enter_and_init
  pub enter_and_init-settle :
      (n d : ℕ) (p : StatePath) (s r : State) (hsm : Hsm) (u : U)
      → Climbs t s n p
      → p.state 0 ≡ s
      → 0 < t.depth s
      → d + n ≡ t.depth s
      → let (r', v) = settle t (depth_max + 1) s (enters t n s u) in
        enter_and_init handle (at_level hsm r d) p u ≡ ok (at_level hsm r' (t.depth r'), v)
  unfolding enter_and_init
  enter_and_init-settle n d p s r hsm u c z pos sum =
      let (h', entered, placed) =
        enter-enters n d p s r hsm u c (omega arith) (omega (arith, tree.shallow s)) in
      rw (entered, z, placed, sum)
        (init_loop-settle (depth_max + 1) hsm p s (enters t n s u) pos (omega arith) z)
