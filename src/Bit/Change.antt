-- ===== src/Bit/Change.antt =====
-- am_bit_u64_set and am_bit_u64_clear on the set of numbers that a bit array stands for.
use amast.Common.{
  ℕ, ◌/◌, ◌%◌, ◌<◌, ◌≡◌, ◌≢◌, refl, arith, Bool, true, false, not, ◌&&◌, ◌||◌, ◌==◌, ltb, ap, sym,
  ◌∙◌, if◌then◌else◌, Bool-cases, ==_iff, inl, inr, has_bit, set_bit, clear_bit, has_bit-set_bit,
  has_bit-clear_bit, set_bit-lt, clear_bit-lt, zero-has_bit, Returns, update,
}
use amast.Bit.{BitU64, u64_set, u64_clear, u64_has}
use amast.Bit.Valid.{IsValid}
use amast.Bit.Msb.{none-zero}

-- A byte whose bit was set is not zero, and a bit that a byte has makes it not zero.
has_bit_nonzero : (b i : ℕ) → i < 8 → has_bit b i ≡ true → b ≢ 0
has_bit_nonzero b i h e z =
    let f : has_bit b i ≡ false = ap (λ c. has_bit c i) z ∙ zero-has_bit i h in ground arith

set_bit_nonzero : (b i : ℕ) → b < 256 → i < 8 → (set_bit b i == 0) ≡ false
set_bit_nonzero b i lt h =
    let t : has_bit (set_bit b i) i ≡ true = ground (arith, has_bit-set_bit b i i lt h h) in
    ground (arith, has_bit_nonzero (set_bit b i) i h t)

clear_bit-zero : (i : ℕ) → i < 8 → clear_bit 0 i ≡ 0
clear_bit-zero i h =
    none-zero (clear_bit 0 i) (clear_bit-lt 0 i (omega arith) h)
      λ j lt. ground (arith, has_bit-clear_bit 0 i j (omega arith) h lt, zero-has_bit j lt)

nonzero_before : (b i : ℕ) → i < 8 → (clear_bit b i == 0) ≡ false → (b == 0) ≡ false
nonzero_before b i h e = elim (Bool-cases (b == 0)) [
  | inl z ↦
      let zero : b ≡ 0 = (==_iff b 0).0 z in
      let cleared : clear_bit b i ≡ 0 = ap (λ c. clear_bit c i) zero ∙ clear_bit-zero i h in
      absurd (ground (arith, cleared))
  | inr ne ↦ ne
]

-- The bits of an array of bytes after a store of `mask` into the byte of bit `n`.
pub at_byte :
    (bits : ℕ → ℕ) (n mask m : ℕ) (f : Bool → Bool → Bool)
    → ((j : ℕ) → j < 8 → has_bit mask j ≡ f (n % 8 == j) (has_bit (bits (n / 8)) j))
    → ((x : Bool) → f false x ≡ x)
    → has_bit (update bits (n / 8) mask (m / 8)) (m % 8)
      ≡ f (n == m) (has_bit (bits (m / 8)) (m % 8))
at_byte bits n mask m f row same = go (n / 8 == m / 8) refl
  where
    go :
        (here : Bool)
        → (n / 8 == m / 8) ≡ here
        → has_bit (if here then mask else bits (m / 8)) (m % 8)
          ≡ f (n == m) (has_bit (bits (m / 8)) (m % 8))
    go true e =
        let q : n / 8 ≡ m / 8 = (==_iff (n / 8) (m / 8)).0 e in
        let low : (n % 8 == m % 8) ≡ (n == m) = ground arith in
        let r = row (m % 8) (omega arith) in rw (q, low) at r
    go false e = let other : (n == m) ≡ false = ground arith in rw other (sym (same _))

-- Setting a bit of a valid array keeps it valid, and adds that number to the set and no other.
pub u64_set-adds :
    (u64 : BitU64) (n : ℕ)
    → IsValid u64
    → n < 64
    → Returns
        (λ after.
          IsValid after × ((m : ℕ) → m < 64 → u64_has after m ≡ ((n == m) || u64_has u64 m)))
        (u64_set u64 n)
unfolding u64_set
u64_set-adds u64 n v h =
    let i = n / 8 in
    let lt : i < 8 = omega arith in
    let bit_lt : n % 8 < 8 = omega arith in
    let in_range : ltb n 64 ≡ true = ground arith in
    let mask = set_bit (u64.bits i) (n % 8) in
    let small = set_bit-lt (u64.bits i) (n % 8) (v.byte_in i lt) bit_lt in
    let some_bit = set_bit_nonzero (u64.bits i) (n % 8) (v.byte_in i lt) bit_lt in
    rw in_range (
      record {
        mask_in = set_bit-lt u64.bytes i v.mask_in lt;
        byte_in = λ k k_lt. ground (arith, v.byte_in k k_lt);
        mask_when = λ k k_lt.
            has_bit-set_bit u64.bytes i k v.mask_in lt k_lt ∙ ground (arith, v.mask_when k k_lt);
      },
      λ m _.
          at_byte u64.bits n mask m ◌||◌
            (λ j j_lt. has_bit-set_bit (u64.bits i) (n % 8) j (v.byte_in i lt) bit_lt j_lt)
            λ x. refl,
    )

-- Clearing a bit of a valid array keeps it valid, the mask of bytes included, and takes that
-- number and no other from the set.
pub u64_clear-takes :
    (u64 : BitU64) (n : ℕ)
    → IsValid u64
    → n < 64
    → Returns
        (λ after.
          IsValid after × ((m : ℕ) → m < 64 → u64_has after m ≡ (not (n == m) && u64_has u64 m)))
        (u64_clear u64 n)
unfolding u64_clear
u64_clear-takes u64 n v h =
    let i = n / 8 in
    let lt : i < 8 = omega arith in
    let bit_lt : n % 8 < 8 = omega arith in
    let in_range : ltb n 64 ≡ true = ground arith in
    let mask = clear_bit (u64.bits i) (n % 8) in
    let small = clear_bit-lt (u64.bits i) (n % 8) (v.byte_in i lt) bit_lt in
    let bits = update u64.bits i mask in
    let fewer : (m : ℕ) → has_bit (bits (m / 8)) (m % 8) ≡ (not (n == m) && u64_has u64 m) = λ m.
      at_byte u64.bits n mask m (λ x y. not x && y)
        (λ j j_lt. has_bit-clear_bit (u64.bits i) (n % 8) j (v.byte_in i lt) bit_lt j_lt)
        λ x. refl in
    let bytes_in : (k : ℕ) → k < 8 → bits k < 256 = λ k k_lt. ground (arith, v.byte_in k k_lt) in
    elim (Bool-cases (mask == 0)) [
      | inl e ↦
          rw (in_range, e)
            (
              record {
                mask_in = clear_bit-lt u64.bytes i v.mask_in lt;
                byte_in = bytes_in;
                mask_when = λ k k_lt.
                    has_bit-clear_bit u64.bytes i k v.mask_in lt k_lt
                    ∙ ground (arith, v.mask_when k k_lt);
              },
              λ m _. fewer m,
            )
      | inr e ↦
          let before : (u64.bits i == 0) ≡ false = nonzero_before (u64.bits i) (n % 8) bit_lt e in
          rw (in_range, e)
            (
              record {
                mask_in = v.mask_in;
                byte_in = bytes_in;
                mask_when = λ k k_lt. v.mask_when k k_lt ∙ ground arith;
              },
              λ m _. fewer m,
            )
    ]
