-- ===== src/Common/Memory.antt =====
-- Memory as a map from offsets, stores into it, and the values that a stretch of it holds.
use Prim.Native.Nat.{ℕ, zero, suc, ◌+◌, ◌-◌, ◌≤◌, ◌<◌}
use mathlib.Core.Path.{◌≡◌, refl, ap, ap₂, ◌∙◌}
use mathlib.Core.Logic.{◌⊎◌, ◌≢◌}
use mathlib.Core.Bool.{Bool, true, false}
use mathlib.Core.List.{List, [], ◌∷◌, ◌++◌}
use native.Mathlib.Omega.{arith}
use amast.Common.Tests.{◌==◌, ==_iff, if◌then◌else◌}

module _ {ℓ} {A : Type ℓ} where
  abbrev pub length : List A → ℕ
  length [] = 0
  length (x ∷ xs) = suc (length xs)

  abbrev pub drop : ℕ → List A → List A
  drop zero xs = xs
  drop (suc n) [] = []
  drop (suc n) (x ∷ xs) = drop n xs

  abbrev pub take : ℕ → List A → List A
  take zero xs = []
  take (suc n) [] = []
  take (suc n) (x ∷ xs) = x ∷ take n xs

  pub length-append : (xs ys : List A) → length (xs ++ ys) ≡ length xs + length ys
  length-append [] ys = omega arith
  length-append (x ∷ xs) ys = omega (arith, length-append xs ys)

  -- `m` with `v` at the place `p`
  abbrev pub update : (ℕ → A) → ℕ → A → ℕ → A
  update m p v q = if p == q then v else m q

  -- the `n` values from offset `i` on
  abbrev pub slice : (ℕ → A) → ℕ → ℕ → List A
  slice m i zero = []
  slice m i (suc n) = m i ∷ slice m (suc i) n

  -- memcpy of a list to offset `i`
  abbrev pub copy : (ℕ → A) → ℕ → List A → ℕ → A
  copy m i [] = m
  copy m i (x ∷ xs) = copy (update m i x) (suc i) xs

module _ {ℓ} {A : Type ℓ} where
  pub length-slice : (m : ℕ → A) (i n : ℕ) → length (slice m i n) ≡ n
  length-slice m i zero = refl
  length-slice m i (suc n) = ap suc (length-slice m (suc i) n)

  -- Stretches that agree value by value are the same list.
  pub slice_congr :
      (m m' : ℕ → A) (i n : ℕ)
      → ((k : ℕ) → i ≤ k → k < i + n → m k ≡ m' k)
      → slice m i n ≡ slice m' i n
  slice_congr m m' i zero h = refl
  slice_congr m m' i (suc n) h =
      ap₂ ◌∷◌ (h i (omega arith) (omega arith))
        (slice_congr m m' (suc i) n λ k a b. h k (omega arith) (omega arith))

  pub slice-add : (m : ℕ → A) (i a b : ℕ) → slice m i (a + b) ≡ slice m i a ++ slice m (i + a) b
  slice-add m i zero b = ap₂ (slice m) (omega arith) (omega arith)
  slice-add m i (suc a) b =
      let e : suc a + b ≡ suc (a + b) = omega arith in
      let f : i + suc a ≡ suc i + a = omega arith in
      rw (e, f) (ap (λ xs. m i ∷ xs) (slice-add m (suc i) a b))

  pub drop-slice : (m : ℕ → A) (i k n : ℕ) → drop k (slice m i (k + n)) ≡ slice m (i + k) n
  drop-slice m i zero n = ap₂ (slice m) (omega arith) (omega arith)
  drop-slice m i (suc k) n =
      let e : suc k + n ≡ suc (k + n) = omega arith in
      let f : i + suc k ≡ suc i + k = omega arith in rw (e, f) (drop-slice m (suc i) k n)

  pub drop-append : (xs ys : List A) (k : ℕ) → drop (length xs + k) (xs ++ ys) ≡ drop k ys
  drop-append [] ys k = ap (λ n. drop n ys) (omega arith)
  drop-append (x ∷ xs) ys k =
      let e : suc (length xs) + k ≡ suc (length xs + k) = omega arith in rw e (drop-append xs ys k)

  pub take_all : (n : ℕ) (xs : List A) → length xs ≤ n → take n xs ≡ xs
  take_all zero [] le = refl
  take_all zero (x ∷ xs) le = absurd (omega arith)
  take_all (suc n) [] le = refl
  take_all (suc n) (x ∷ xs) le = ap (λ ys. x ∷ ys) (take_all n xs (omega arith))

  pub take-append : (xs ys : List A) → take (length xs) (xs ++ ys) ≡ xs
  take-append [] ys = refl
  take-append (x ∷ xs) ys = ap (λ zs. x ∷ zs) (take-append xs ys)

  pub drop-append_le :
      (xs ys : List A) (k : ℕ) → k ≤ length xs → drop k (xs ++ ys) ≡ drop k xs ++ ys
  drop-append_le xs ys zero h = refl
  drop-append_le [] ys (suc k) h = absurd (omega arith)
  drop-append_le (x ∷ xs) ys (suc k) h = drop-append_le xs ys k (omega arith)

  pub copy-outside :
      (m : ℕ → A) (i : ℕ) (xs : List A) (k : ℕ)
      → (k < i) ⊎ (i + length xs ≤ k)
      → copy m i xs k ≡ m k
  copy-outside m i [] k h = refl
  copy-outside m i (x ∷ xs) k h =
      ground (arith, copy-outside (update m i x) (suc i) xs k (omega arith))

  pub slice-copy : (m : ℕ → A) (i : ℕ) (xs : List A) → slice (copy m i xs) i (length xs) ≡ xs
  slice-copy m i [] = refl
  slice-copy m i (x ∷ xs) =
      ap₂ ◌∷◌ (ground (arith, copy-outside (update m i x) (suc i) xs i (omega arith)))
        (slice-copy (update m i x) (suc i) xs)

  -- A copy just behind a stretch extends it, and one elsewhere leaves it alone.
  pub slice-copy_outside :
      (m : ℕ → A) (i n p : ℕ) (xs : List A)
      → (i + n ≤ p) ⊎ (p + length xs ≤ i)
      → slice (copy m p xs) i n ≡ slice m i n
  slice-copy_outside m i n p xs h =
      slice_congr (copy m p xs) m i n λ k a b. copy-outside m p xs k (omega arith)

  pub slice-copy_append :
      (m : ℕ → A) (i n : ℕ) (xs : List A)
      → slice (copy m (i + n) xs) i (n + length xs) ≡ slice m i n ++ xs
  slice-copy_append m i n xs =
      slice-add (copy m (i + n) xs) i n (length xs)
      ∙ ap₂ ◌++◌ (slice-copy_outside m i n (i + n) xs (omega arith)) (slice-copy m (i + n) xs)

  pub take-slice : (m : ℕ → A) (i n : ℕ) (ys : List A) → take n (slice m i n ++ ys) ≡ slice m i n
  take-slice m i zero ys = refl
  take-slice m i (suc n) ys = ap (λ zs. m i ∷ zs) (take-slice m (suc i) n ys)

  pub slice-le :
      (m : ℕ → A) (i k n : ℕ) → k ≤ n → slice m i n ≡ slice m i k ++ slice m (i + k) (n - k)
  slice-le m i k n h =
      let e : n ≡ k + (n - k) = omega arith in ap (slice m i) e ∙ slice-add m i k (n - k)

  pub take-append-drop : (n : ℕ) (xs : List A) → take n xs ++ drop n xs ≡ xs
  take-append-drop zero xs = refl
  take-append-drop (suc n) [] = refl
  take-append-drop (suc n) (x ∷ xs) = ap (λ zs. x ∷ zs) (take-append-drop n xs)

-- What holds of a value after a store: of the new value at its place, of the old ones elsewhere.
pub update-cases {ℓ} :
    {A : Type ℓ} (P : A → Type 0) (m : ℕ → A) (p : ℕ) (v : A) (q : ℕ)
    → (p ≡ q → P v)
    → (p ≢ q → P (m q))
    → P (update m p v q)
update-cases P m p v q here elsewhere = go (p == q) refl
  where
    go : (b : Bool) → (p == q) ≡ b → P (if b then v else m q)
    go true e = here ((==_iff p q).0 e)
    go false e = elsewhere (ground arith)
