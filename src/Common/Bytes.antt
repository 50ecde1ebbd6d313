-- ===== src/Common/Bytes.antt =====
-- The bits of a byte. Masks are the native bitwise operations; what they do to each bit is read
-- off a table of all bytes and bits.
use Prim.Native.Nat.{ℕ, zero, suc, ◌-◌, ◌/◌, ◌%◌, ◌^◌, ◌≤◌, ◌<◌, bit_and, bit_or}
use mathlib.Core.Path.{◌≡◌, refl}
use mathlib.Core.Bool.{Bool, true, false, not, ◌&&◌, ◌||◌}
use native.Mathlib.Omega.{arith}
use mathlib.Core.List.{List, [], ◌∷◌}
use amast.Common.Memory.{length}
use amast.Common.Tests.{ltb, ◌==◌, if◌then◌else◌}

-- bit `i` of the byte `b`
unfoldable pub has_bit : ℕ → ℕ → Bool
has_bit b i = b / 2 ^ i % 2 == 1

-- b |= 1 << i
unfoldable pub set_bit : ℕ → ℕ → ℕ
set_bit b i = bit_or b (2 ^ i)

-- b &= (uint8_t)~(1 << i)
unfoldable pub clear_bit : ℕ → ℕ → ℕ
clear_bit b i = bit_and b (255 - 2 ^ i)

-- Equality of truth values, and a test of all numbers below a bound.
abbrev same : Bool → Bool → Bool
same true b = b
same false b = not b

unfoldable pub every : ℕ → (ℕ → Bool) → Bool
every zero test = true
every (suc n) test = test n && every n test

pub every-test : (n : ℕ) (test : ℕ → Bool) (k : ℕ) → every n test ≡ true → k < n → test k ≡ true
unfolding every
every-test zero test k h lt = absurd (omega arith)
every-test (suc n) test k h lt = ground (arith, every-test n test k)

-- What a mask does to bit `j`, at every byte and bit.
set_row : ℕ → ℕ → ℕ → Bool
unfolding has_bit set_bit
set_row b i j = same (has_bit (set_bit b i) j) ((i == j) || has_bit b j) && ltb (set_bit b i) 256

clear_row : ℕ → ℕ → ℕ → Bool
unfolding has_bit clear_bit
clear_row b i j =
    same (has_bit (clear_bit b i) j) (not (i == j) && has_bit b j) && ltb (clear_bit b i) 256

cube : (ℕ → ℕ → ℕ → Bool) → Bool
unfolding every
cube row = every 256 λ b. every 8 λ i. every 8 λ j. row b i j

cube-row :
    (row : ℕ → ℕ → ℕ → Bool) {b i j : ℕ}
    → cube row ≡ true
    → b < 256
    → i < 8
    → j < 8
    → row b i j ≡ true
unfolding cube
cube-row row {b} {i} {j} all hb hi hj =
    let rows = every-test 256 (λ b. every 8 λ i. every 8 λ j. row b i j) b all hb in
    every-test 8 (row b i) j (every-test 8 (λ i. every 8 λ j. row b i j) i rows hi) hj

set_table : cube set_row ≡ true
unfolding cube set_row
set_table = refl

clear_table : cube clear_row ≡ true
unfolding cube clear_row
clear_table = refl

both : {x y z : Bool} → (same x y && z) ≡ true → (x ≡ y) × (z ≡ true)
both {x} {y} {z} h = ground arith

set_facts :
    (b i j : ℕ)
    → b < 256
    → i < 8
    → j < 8
    → (has_bit (set_bit b i) j ≡ ((i == j) || has_bit b j)) × (ltb (set_bit b i) 256 ≡ true)
unfolding set_row
set_facts b i j hb hi hj = both (cube-row set_row set_table hb hi hj)

clear_facts :
    (b i j : ℕ)
    → b < 256
    → i < 8
    → j < 8
    → (has_bit (clear_bit b i) j ≡ (not (i == j) && has_bit b j)) × (ltb (clear_bit b i) 256 ≡ true)
unfolding clear_row
clear_facts b i j hb hi hj = both (cube-row clear_row clear_table hb hi hj)

pub has_bit-set_bit :
    (b i j : ℕ) → b < 256 → i < 8 → j < 8 → has_bit (set_bit b i) j ≡ ((i == j) || has_bit b j)
has_bit-set_bit b i j hb hi hj = (set_facts b i j hb hi hj).0

pub has_bit-clear_bit :
    (b i j : ℕ)
    → b < 256
    → i < 8
    → j < 8
    → has_bit (clear_bit b i) j ≡ (not (i == j) && has_bit b j)
has_bit-clear_bit b i j hb hi hj = (clear_facts b i j hb hi hj).0

pub set_bit-lt : (b i : ℕ) → b < 256 → i < 8 → set_bit b i < 256
set_bit-lt b i hb hi = ground (arith, set_facts b i i hb hi hi)

pub clear_bit-lt : (b i : ℕ) → b < 256 → i < 8 → clear_bit b i < 256
clear_bit-lt b i hb hi = ground (arith, clear_facts b i i hb hi hi)

-- Zero has no bit, and it is the only byte that has none.
pub zero-has_bit : (i : ℕ) → i < 8 → has_bit 0 i ≡ false
unfolding has_bit
zero-has_bit i h = ground arith

-- The bits of a byte that are below `n`, the highest first.
unfoldable pub bits_below : ℕ → ℕ → List ℕ
bits_below zero b = []
bits_below (suc n) b = if has_bit b n then n ∷ bits_below n b else bits_below n b

pub bits_below-length : (n b : ℕ) → length (bits_below n b) ≤ n
unfolding bits_below
bits_below-length zero b = omega arith
bits_below-length (suc n) b = ground (arith, bits_below-length n b)

pub bits_below-zero : bits_below 8 0 ≡ []
unfolding bits_below has_bit
bits_below-zero = refl
