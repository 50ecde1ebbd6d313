-- ===== src/Bit/Valid.antt =====
-- The invariant of a bit array, and what its readers tell under it.
use amast.Common.{
  ℕ, ◌+◌, ◌*◌, ◌/◌, ◌%◌, ◌<◌, ◌≡◌, ◌≢◌, ◌↔◌, arith, true, false, not, ◌==◌, has_bit, zero-has_bit,
  ap, ◌∙◌, Bool-cases, ==_iff, inl, inr,
}
use amast.Bit.{BitU64, u64_is_empty, u64_msb, u64_has, u8_msb}
use amast.Bit.Msb.{u8_msb-lt, has_bit-u8_msb, above-u8_msb, none-zero}

-- The bytes are bytes, and the mask has the bit of a byte exactly when that byte is not zero.
pub record IsValid (u64 : BitU64) : Type 0 where
  pub mask_in : u64.bytes < 256
  pub byte_in : (i : ℕ) → i < 8 → u64.bits i < 256
  pub mask_when : (i : ℕ) → i < 8 → has_bit u64.bytes i ≡ not (u64.bits i == 0)

zero_byte :
    (u64 : BitU64) → IsValid u64 → (i : ℕ) → i < 8 → has_bit u64.bytes i ≡ false → u64.bits i ≡ 0
zero_byte u64 v i lt e = ground (arith, v.mask_when i lt)

-- The empty array is the one without any bit.
pub u64_is_empty_iff :
    (u64 : BitU64)
    → IsValid u64
    → (u64_is_empty u64 ≡ true) ↔ ((n : ℕ) → n < 64 → u64_has u64 n ≡ false)
u64_is_empty_iff u64 v = (to, from)
  where
    to : u64_is_empty u64 ≡ true → (n : ℕ) → n < 64 → u64_has u64 n ≡ false
    to e n h =
        let i = n / 8 in
        let lt : i < 8 = omega arith in
        let mask : u64.bytes ≡ 0 = ground arith in
        let no_bit : has_bit u64.bytes i ≡ false = ap (λ b. has_bit b i) mask ∙ zero-has_bit i lt in
        let byte : u64.bits i ≡ 0 = ground (arith, v.mask_when i lt) in
        ap (λ b. has_bit b (n % 8)) byte ∙ zero-has_bit (n % 8) (omega arith)

    from : ((n : ℕ) → n < 64 → u64_has u64 n ≡ false) → u64_is_empty u64 ≡ true
    from none =
        let byte : (i : ℕ) → i < 8 → u64.bits i ≡ 0 = λ i lt.
          none-zero (u64.bits i) (v.byte_in i lt) λ j h.
            let q : (i * 8 + j) / 8 ≡ i = omega arith in
            let r : (i * 8 + j) % 8 ≡ j = omega arith in
            let z = none (i * 8 + j) (omega arith) in rw (q, r) at z in
        let mask : u64.bytes ≡ 0 =
          none-zero u64.bytes v.mask_in λ i lt. ground (arith, v.mask_when i lt, byte i lt) in
        ground arith

-- The most significant bit of an array that is not empty is one of its bits and the greatest.
pub u64_msb-greatest :
    (u64 : BitU64)
    → IsValid u64
    → u64_is_empty u64 ≡ false
    → (u64_msb u64 < 64)
      × (u64_has u64 (u64_msb u64) ≡ true)
      × ((n : ℕ) → u64_msb u64 < n → n < 64 → u64_has u64 n ≡ false)
unfolding u64_msb
u64_msb-greatest u64 v some_bit =
    let ne : u64.bytes ≢ 0 = ground arith in
    let i = u8_msb u64.bytes in
    let lt = u8_msb-lt u64.bytes v.mask_in ne in
    let bit : has_bit u64.bytes i ≡ true = has_bit-u8_msb u64.bytes v.mask_in ne in
    let b = u64.bits i in
    let byte_ne : b ≢ 0 = ground (arith, v.mask_when i lt) in
    let m = u8_msb b in
    let m_lt = u8_msb-lt b (v.byte_in i lt) byte_ne in
    let q : (m + i * 8) / 8 ≡ i = omega arith in
    let r : (m + i * 8) % 8 ≡ m = omega arith in
    let top = has_bit-u8_msb b (v.byte_in i lt) byte_ne in
    (
      omega arith,
      rw (q, r) top,
      λ n above h. elim (Bool-cases (n / 8 == i)) [
        | inl e ↦
            let same : n / 8 ≡ i = (==_iff (n / 8) i).0 e in
            ap (λ k. has_bit (u64.bits k) (n % 8)) same
            ∙ above-u8_msb b (n % 8) (v.byte_in i lt) (omega arith) (omega arith)
        | inr e ↦
            let next : n / 8 < 8 = omega arith in
            let further : i < n / 8 = ground arith in
            let zero =
              zero_byte u64 v (n / 8) next
                (above-u8_msb u64.bytes (n / 8) v.mask_in next further) in
            ap (λ b. has_bit b (n % 8)) zero ∙ zero-has_bit (n % 8) (omega arith)
      ],
    )
