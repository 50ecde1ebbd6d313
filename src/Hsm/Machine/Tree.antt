-- ===== src/Hsm/Machine/Tree.antt =====
-- The user's handlers as a tree of states: superstates, and what the handlers do to the user's
-- data on entry, on exit and on the initial event.
use amast.Common.{
  ℕ, zero, suc, ◌+◌, ◌-◌, ◌≤◌, ◌<◌, ◌≡◌, ◌≢◌, ◌⊎◌, inl, inr, refl, sym, ap, ap₂, arith, true, false,
  ◌==◌, Bool-cases, Option, none, some,
}
use amast.Hsm.{
  State, Hsm, super, Answer, say_handled, go_super, go_tran, evt_empty, evt_init, evt_entry,
  evt_exit, depth_max, top_fn, top, set_state, is_same,
}
use amast.Hsm.Machine.{call}

-- A state of depth 0 is am_hsm_top, or no state of the machine.
pub record Tree (U : Type 0) : Type 0 where
  pub parent : State → State
  pub depth : State → ℕ
  pub initial : State → Option State
  pub on_entry : State → U → U
  pub on_exit : State → U → U
  pub on_init : State → U → U

module _ {U : Type 0} (t : Tree U) where
  -- the k-th superstate
  abbrev pub up : ℕ → State → State
  up zero s = s
  up (suc k) s = up k (t.parent s)

  -- the exit actions of k states, from s upwards
  abbrev pub exits : ℕ → State → U → U
  exits zero s u = u
  exits (suc k) s u = exits k (t.parent s) (t.on_exit s u)

  -- the entry actions of k states, downwards to s
  abbrev pub enters : ℕ → State → U → U
  enters zero s u = u
  enters (suc k) s u = enters k s (t.on_entry (up k s) u)

  -- the initial transitions from s down, each with the entry actions on its way
  unfoldable pub settle : ℕ → State → U → State × U
  settle zero s u = (s, u)
  settle (suc fuel) s u = elim (t.initial s) [
    | none ↦ (s, t.on_init s u)
    | some r ↦ settle fuel r (enters (t.depth r - t.depth s) r (t.on_init s u))
  ]

  pub settle-none :
      (fuel : ℕ) (s : State) (u : U)
      → t.initial s ≡ none
      → settle (suc fuel) s u ≡ (s, t.on_init s u)
  unfolding settle
  settle-none fuel s u e = rw (e, settle) refl

  pub settle-some :
      (fuel : ℕ) (s r : State) (u : U)
      → t.initial s ≡ some r
      → settle (suc fuel) s u ≡ settle fuel r (enters (t.depth r - t.depth s) r (t.on_init s u))
  unfolding settle
  settle-some fuel s r u e = rw (e, settle) refl

-- What the documentation of the handlers asks of them, in every descriptor that is in the state, and
-- a depth below AM_HSM_HIERARCHY_DEPTH_MAX.
pub record IsTree {U : Type 0} (handle : ℕ → Hsm → ℕ → U → Answer × U) (t : Tree U) : Type 0 where
  pub root : t.depth top ≡ 0
  pub below_top : (s : State) → 0 < t.depth s → (s.fn == top_fn) ≡ false
  pub first : (s : State) → t.depth s ≡ 1 → t.parent s ≡ top
  pub deeper : (s : State) → 1 < t.depth s → t.depth s ≡ t.depth (t.parent s) + 1
  pub empty :
      (hsm : Hsm) (s : State) (u : U)
      → 0 < t.depth s
      → handle s.fn (set_state hsm s) evt_empty u ≡ (go_super (t.parent s), u)
  pub entry :
      (hsm : Hsm) (s : State) (u : U)
      → 0 < t.depth s
      → (handle s.fn (set_state hsm s) evt_entry u ≡ (say_handled, t.on_entry s u))
        ⊎ (handle s.fn (set_state hsm s) evt_entry u ≡ (go_super (t.parent s), t.on_entry s u))
  pub exit :
      (hsm : Hsm) (s : State) (u : U)
      → 0 < t.depth s
      → (handle s.fn (set_state hsm s) evt_exit u ≡ (say_handled, t.on_exit s u))
        ⊎ (handle s.fn (set_state hsm s) evt_exit u ≡ (go_super (t.parent s), t.on_exit s u))
  pub settled :
      (hsm : Hsm) (s : State) (u : U)
      → 0 < t.depth s
      → t.initial s ≡ none
      → (handle s.fn (set_state hsm s) evt_init u ≡ (say_handled, t.on_init s u))
        ⊎ (handle s.fn (set_state hsm s) evt_init u ≡ (go_super (t.parent s), t.on_init s u))
  pub leads :
      (hsm : Hsm) (s r : State) (u : U)
      → 0 < t.depth s
      → t.initial s ≡ some r
      → handle s.fn (set_state hsm s) evt_init u ≡ (go_tran r, t.on_init s u)
  pub inside :
      (s r : State)
      → 0 < t.depth s
      → t.initial s ≡ some r
      → (k : ℕ) × (0 < k) × (k + t.depth s ≡ t.depth r) × (up t k r ≡ s)
  pub shallow : (s : State) → t.depth s < depth_max

is_same-eq : (s r : State) → is_same s r ≡ true → s ≡ r
is_same-eq s r h =
    let e : (s.fn ≡ r.fn) × (s.instance_id ≡ r.instance_id) = ground arith in
    ap₂ (λ f i. record { fn = f; instance_id = i }) e.0 e.1

pub is_same_refl : (s : State) → is_same s s ≡ true
is_same_refl s = ground arith

pub is_same-ne : (s r : State) → s ≢ r → is_same s r ≡ false
is_same-ne s r ne = elim (Bool-cases (is_same s r)) [
  | inl e ↦ absurd (ne (is_same-eq s r e))
  | inr e ↦ e
]

module _ {U : Type 0} {handle : ℕ → Hsm → ℕ → U → Answer × U} {t : Tree U}
    (tree : IsTree handle t) where
  pub depth-parent : (s : State) → 0 < t.depth s → t.depth (t.parent s) ≡ t.depth s - 1
  depth-parent s h = elim (Bool-cases (t.depth s == 1)) [
    | inl e ↦ let one : t.depth s ≡ 1 = ground arith in rw (tree.first s one, one) tree.root
    | inr e ↦ let more : 1 < t.depth s = ground arith in omega (arith, tree.deeper s more)
  ]

  pub depth-up : (k : ℕ) (s : State) → k ≤ t.depth s → t.depth (up t k s) ≡ t.depth s - k
  depth-up zero s h = omega arith
  depth-up (suc k) s h =
      let e = depth-parent s (omega arith) in
      omega (arith, depth-up k (t.parent s) (omega arith), e)

  pub up_depth : (k : ℕ) (s : State) → suc k ≡ t.depth s → up t (suc k) s ≡ top
  up_depth zero s h = tree.first s (sym h)
  up_depth (suc k) s h =
      let e = depth-parent s (omega arith) in up_depth k (t.parent s) (omega (arith, e))

  pub up_all : (s : State) → 0 < t.depth s → up t (t.depth s) s ≡ top
  up_all s h =
      let e : suc (t.depth s - 1) ≡ t.depth s = omega arith in
      rw e at (up_depth (t.depth s - 1) s e)

  -- a superstate of a state is another one
  pub up-is_same : (k : ℕ) (s : State) → suc k ≤ t.depth s → is_same s (up t (suc k) s) ≡ false
  up-is_same k s h =
      let e = depth-up (suc k) s h in
      is_same-ne s (up t (suc k) s) (λ p. omega (arith, ap t.depth p, e))

  pub up-is_same_flip : (k : ℕ) (s : State) → suc k ≤ t.depth s → is_same (up t (suc k) s) s ≡ false
  up-is_same_flip k s h =
      let e = depth-up (suc k) s h in
      is_same-ne (up t (suc k) s) s (λ p. omega (arith, ap t.depth p, e))

  pub is_same-top : (s : State) → 0 < t.depth s → is_same s top ≡ false
  is_same-top s h = is_same-ne s top (λ p. omega (arith, ap t.depth p, tree.root))

  -- a state asked for its superstate
  pub call-empty :
      (hsm : Hsm) (s : State) (u : U)
      → 0 < t.depth s
      → call handle (set_state hsm s) evt_empty u ≡ (super, set_state hsm (t.parent s), u)
  call-empty hsm s u h = rw (tree.below_top s h, tree.empty hsm s u h) refl
