-- ===== src/Bit.antt =====
-- libs/bit/bit.c: the array of 64 bits with a redundant mask of its bytes. Bit numbers, which the
-- code asserts not to be negative, are numbers.
pub mod Msb
pub mod Valid
pub mod Change
pub mod Examples
use amast.Common.{
  ℕ, ◌+◌, ◌*◌, ◌/◌, ◌%◌, ◌^◌, Bool, List, [], ◌∷◌, ltb, ◌==◌, if◌then◌else◌, Checked, ok, check,
  ◌>>=◌, ◌>>◌, update, zero, suc, set_bit, clear_bit, has_bit,
}

-- struct am_bit_u64
pub record BitU64 : Type 0 where
  pub bytes : ℕ
  pub bits : ℕ → ℕ

-- the entry of an array of constants at an index
abbrev pub entry : List ℕ → ℕ → ℕ
entry [] i = 0
entry (x ∷ xs) zero = x
entry (x ∷ xs) (suc i) = entry xs i

abbrev pub bit_msb_from_u4 : List ℕ
bit_msb_from_u4 =
    0 ∷ 0 ∷ 1 ∷ 1 ∷ 2 ∷ 2 ∷ 2 ∷ 2 ∷ 3 ∷ 3 ∷ 3 ∷ 3 ∷ 3 ∷ 3 ∷ 3 ∷ 3 ∷ 4 ∷ 4 ∷ 4 ∷ 4 ∷ 4 ∷ 4 ∷ 4 ∷ 4
    ∷ []

abbrev pub u64_is_empty : BitU64 → Bool
u64_is_empty u64 = 0 == u64.bytes

unfoldable pub u8_msb : ℕ → ℕ
u8_msb u8 =
    let u4 = u8 / 2 ^ 4 in
    if u4 == 0 then entry bit_msb_from_u4 (u8 % 2 ^ 4) else 4 + entry bit_msb_from_u4 u4

unfoldable pub u64_msb : BitU64 → ℕ
u64_msb u64 = let i = u8_msb u64.bytes in u8_msb (u64.bits i) + i * 8

unfoldable pub u64_set : BitU64 → ℕ → Checked BitU64
u64_set u64 n = do
  check (ltb n 64)
  let i = n / 8
  ok (record {
    bytes = set_bit u64.bytes i;
    bits = update u64.bits i (set_bit (u64.bits i) (n % 8));
  })

unfoldable pub u64_clear : BitU64 → ℕ → Checked BitU64
u64_clear u64 n = do
  check (ltb n 64)
  let i = n / 8
  let mask = clear_bit (u64.bits i) (n % 8)
  let bits = update u64.bits i mask
  ok (
      if mask == 0
      then record { bytes = clear_bit u64.bytes i; bits = bits }
      else record { bytes = u64.bytes; bits = bits })

-- bit `n` of the array
abbrev pub u64_has : BitU64 → ℕ → Bool
u64_has u64 n = has_bit (u64.bits (n / 8)) (n % 8)
