-- ===== src/Bit/Examples.antt =====
-- Bit arrays to try the theorems on.
use amast.Common.{
  ℕ, ◌<◌, ◌≡◌, refl, arith, true, false, not, ◌&&◌, ◌||◌, ◌==◌, set_bit, clear_bit, zero-has_bit,
  Returns, update, ok,
}
use amast.Bit.{BitU64, u8_msb, u64_msb, u64_set, u64_clear, u64_has}
use amast.Bit.Valid.{IsValid, u64_msb-greatest}
use amast.Bit.Change.{u64_set-adds, u64_clear-takes}

abbrev pub no_bits : BitU64
no_bits = record { bytes = 0; bits = λ _. 0 }

pub no_bits-IsValid : IsValid no_bits
no_bits-IsValid = record {
  mask_in = omega arith;
  byte_in = λ i h. omega arith;
  mask_when = λ i h. zero-has_bit i h;
}

-- bit 42 alone
abbrev one_bit : BitU64
one_bit = record { bytes = set_bit 0 5; bits = update (λ _. 0) 5 (set_bit 0 2) }

one_bit-IsValid : IsValid one_bit
unfolding u64_set
one_bit-IsValid =
    let made : Returns
        (λ after.
          IsValid after × ((m : ℕ) → m < 64 → u64_has after m ≡ ((42 == m) || u64_has no_bits m)))
        (u64_set no_bits 42) =
      u64_set-adds no_bits 42 no_bits-IsValid (omega arith) in
    made.0

u64_clear-takes_example :
    Returns
      (λ after.
        IsValid after × ((m : ℕ) → m < 64 → u64_has after m ≡ (not (42 == m) && u64_has one_bit m)))
      (u64_clear one_bit 42)
u64_clear-takes_example = u64_clear-takes one_bit 42 one_bit-IsValid (omega arith)

u64_msb-greatest_example :
    (u64_msb one_bit < 64)
    × (u64_has one_bit (u64_msb one_bit) ≡ true)
    × ((n : ℕ) → u64_msb one_bit < n → n < 64 → u64_has one_bit n ≡ false)
unfolding set_bit
u64_msb-greatest_example = u64_msb-greatest one_bit one_bit-IsValid refl

msb_runs : (u64_msb one_bit ≡ 42) × (u8_msb 200 ≡ 7) × (u8_msb 0 ≡ 0)
unfolding set_bit u64_msb u8_msb
msb_runs = (refl, refl, refl)

cleared_run :
    u64_clear one_bit 42
    ≡ ok (record { bytes = clear_bit (set_bit 0 5) 5; bits = update one_bit.bits 5 0 })
unfolding u64_clear set_bit clear_bit
cleared_run = refl
