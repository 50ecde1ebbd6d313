-- ===== src/Onesize/Count.antt =====
-- Distinct blocks below the bump index are no more than that index.
use amast.Common.{
  ℕ, zero, suc, ◌+◌, ◌*◌, ◌≤◌, ◌<◌, ◌≡◌, ◌≢◌, ◌∙◌, refl, ap, arith, List, [], ◌∷◌, length, ◌==◌,
  if◌then◌else◌, Bool-cases, false, inl, inr, ==_iff,
}
use amast.Slist.Chain.{Fresh, Distinct}
use amast.Onesize.Valid.{Blocks}

without : ℕ → List ℕ → List ℕ
without a [] = []
without a (x ∷ xs) = if x == a then without a xs else x ∷ without a xs

Fresh-without : (b a : ℕ) (xs : List ℕ) → Fresh b xs → Fresh b (without a xs)
unfolding without
Fresh-without b a [] f = tt
Fresh-without b a (x ∷ xs) f = ground (arith, Fresh-without b a xs f.1)

Distinct-without : (a : ℕ) (xs : List ℕ) → Distinct xs → Distinct (without a xs)
unfolding without
Distinct-without a [] d = tt
Distinct-without a (x ∷ xs) d = ground (arith, Distinct-without a xs d.1, Fresh-without x a xs d.0)

length-without_fresh : (a : ℕ) (xs : List ℕ) → Fresh a xs → length (without a xs) ≡ length xs
unfolding without
length-without_fresh a [] f = refl
length-without_fresh a (x ∷ xs) f = ground (arith, length-without_fresh a xs f.1)

length-le-without : (a : ℕ) (xs : List ℕ) → Distinct xs → length xs ≤ suc (length (without a xs))
unfolding without
length-le-without a [] d = omega arith
length-le-without a (x ∷ xs) d = elim (Bool-cases (x == a)) [
  | inl e ↦ rw e (omega (arith, length-without_fresh a xs (rw ((==_iff x a).0 e) at d.0)))
  | inr e ↦ rw e (omega (arith, length-le-without a xs d.1))
]

absurd_eq : {a b : ℕ} → (a == b) ≡ false → a ≡ b → ⊥
absurd_eq e k = ground arith

module _ (beg size : ℕ) where
  Blocks-without :
      (n : ℕ) (xs : List ℕ)
      → Blocks beg size (suc n) xs
      → Blocks beg size n (without (beg + size * n) xs)
  unfolding without
  Blocks-without n [] b = tt
  Blocks-without n (x ∷ xs) ((i, below, at), b) = elim (Bool-cases (x == beg + size * n)) [
    | inl e ↦ rw e (Blocks-without n xs b)
    | inr e ↦
        let ne : i ≢ n = λ k. absurd_eq e (at ∙ ap (λ t. beg + size * t) k) in
        rw e ((i, omega arith, at), Blocks-without n xs b)
  ]

  pub length-Blocks : (n : ℕ) (xs : List ℕ) → Distinct xs → Blocks beg size n xs → length xs ≤ n
  length-Blocks zero [] d b = omega arith
  length-Blocks zero (x ∷ xs) d ((i, below, at), b) = elim below [ ]
  length-Blocks (suc n) xs d b =
      let a = beg + size * n in
      omega (
        arith,
        length-le-without a xs d,
        length-Blocks n (without a xs) (Distinct-without a xs d) (Blocks-without n xs b),
      )

  -- A block that is not one of them leaves room for one more.
  pub length-lt_of_fresh :
      (n i p : ℕ) (xs : List ℕ)
      → Distinct xs
      → Blocks beg size n xs
      → i < n
      → p ≡ beg + size * i
      → Fresh p xs
      → length xs < n
  length-lt_of_fresh n i p xs d b h e f = length-Blocks n (p ∷ xs) (f, d) ((i, h, e), b)
