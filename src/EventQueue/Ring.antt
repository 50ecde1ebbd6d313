-- ===== src/EventQueue/Ring.antt =====
-- The values that stand in a ring of `cap` slots, `n` of them from index `rd` on.
use amast.Common.{
  ℕ, suc, ◌+◌, ◌-◌, ◌≤◌, ◌<◌, ◌≡◌, ◌⊎◌, refl, ap₂, ◌∙◌, arith, ltb, leb, if◌then◌else◌, slice, List,
  [], ◌∷◌, ◌++◌, update, slice-copy_append, slice-copy_outside, append_assoc,
}

abbrev pub ring : (ℕ → ℕ) → (cap rd n : ℕ) → List ℕ
ring m cap rd n =
    if leb (rd + n) cap then slice m rd n else slice m rd (cap - rd) ++ slice m 0 (rd + n - cap)

-- the index that is `n` slots behind `rd`
abbrev pub index : (cap rd n : ℕ) → ℕ
index cap rd n = if ltb (rd + n) cap then rd + n else rd + n - cap

-- the index in front of `rd`
abbrev pub before : (cap rd : ℕ) → ℕ
before cap rd = if ltb 0 rd then rd - 1 else cap - 1

slice-add_one :
    (m : ℕ → ℕ) (i n w k v : ℕ)
    → i + n ≡ w
    → k ≡ n + 1
    → slice (update m w v) i k ≡ slice m i n ++ (v ∷ [])
slice-add_one m i n w k v e f =
    let one : n + 1 ≡ n + suc 0 = omega arith in rw (← e, f) (slice-copy_append m i n (v ∷ []))

slice-cons : (m : ℕ → ℕ) (i j n k : ℕ) → k ≡ n + 1 → j ≡ i + 1 → slice m i k ≡ m i ∷ slice m j n
slice-cons m i j n k e f =
    let e' : k ≡ suc n = omega arith in let f' : j ≡ suc i = omega arith in rw (e', f')

slice-update_outside :
    (m : ℕ → ℕ) (i n w v : ℕ) → (i + n ≤ w) ⊎ (w < i) → slice (update m w v) i n ≡ slice m i n
slice-update_outside m i n w v h = slice-copy_outside m i n w (v ∷ []) (omega arith)

module _ (m : ℕ → ℕ) (cap rd n : ℕ) (in_rd : rd < cap) where
  pub ring-back :
      (v : ℕ)
      → n < cap
      → ring (update m (index cap rd n) v) cap rd (n + 1) ≡ ring m cap rd n ++ (v ∷ [])
  ring-back v h = ground (
    arith,
    slice-add_one m rd n (rd + n) (n + 1) v,
    slice-update_outside m rd (cap - rd) (rd + n - cap) v,
    slice-add_one m 0 (rd + n - cap) (rd + n - cap) (rd + (n + 1) - cap) v,
    append_assoc (slice m rd (cap - rd)) (slice m 0 (rd + n - cap)) (v ∷ []),
  )

  pub ring-pop : n ≤ cap → 0 < n → ring m cap rd n ≡ m rd ∷ ring m cap (index cap rd 1) (n - 1)
  ring-pop h p =
      let one : (rd + 1 ≡ cap) → slice m 0 0 ≡ slice m (rd + 1) 0 = λ _. refl in
      ground (
        arith,
        slice-cons m rd (rd + 1) (n - 1) n,
        slice-cons m rd (rd + 1) (cap - (rd + 1)) (cap - rd),
      )

  pub ring-outside :
      (w v : ℕ) → n < cap → w ≡ before cap rd → ring (update m w v) cap rd n ≡ ring m cap rd n
  ring-outside w v h e = ground (
    arith,
    slice-update_outside m rd n w v,
    slice-update_outside m rd (cap - rd) w v,
    slice-update_outside m 0 (rd + n - cap) w v,
  )

pub ring-front :
    (m : ℕ → ℕ) (cap rd n v : ℕ)
    → rd < cap
    → n < cap
    → ring (update m (before cap rd) v) cap (before cap rd) (n + 1) ≡ v ∷ ring m cap rd n
ring-front m cap rd n v h g =
    let w = before cap rd in
    let m' = update m w v in
    let at : m' w ≡ v = ground arith in
    let back : index cap w 1 ≡ rd = ground arith in
    let less : n + 1 - 1 ≡ n = omega arith in
    ring-pop m' cap w (n + 1) (ground arith) (omega arith) (omega arith)
    ∙ ap₂ ◌∷◌ at ((λ i. ring m' cap (back i) (less i)) ∙ ring-outside m cap rd n h w v g refl)
