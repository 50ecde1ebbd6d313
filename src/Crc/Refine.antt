-- ===== src/Crc/Refine.antt =====
-- crc16, crc24 and crc32 against the definition of the checks, a bit at a time.
use amast.Common.{
  ℕ, suc, ◌+◌, ◌*◌, ◌/◌, ◌%◌, ◌^◌, ◌<◌, ◌≡◌, refl, ap, ap₂, subst, every, sym, ◌∙◌, arith, true,
  ltb, List, [], ◌∷◌, length, ok, pow, bit_xor, bit_xor-lt, bit_xor-split, bit_xor-zero,
}
use amast.Bit.{entry}
use amast.Crc.{crc16, crc24, crc32, crc16_loop, crc24_loop, crc32_loop}
use amast.Crc.Tables.{crc16_lookup, crc24_lookup, crc32_lookup}
use amast.Crc.Rounds.{rounds, crc_of}
use amast.Crc.Lookup.{is_right, right_at, rounds-entry, crc16_right, crc24_right, crc32_right}

-- The numbers of a list are bytes.
abbrev pub Bytes : List ℕ → Type 0
Bytes [] = Unit {0}
Bytes (b ∷ bs) = (b < 256) × Bytes bs

-- What is above the byte of the register that goes out does not count.
index_of : (q h b : ℕ) → h < 256 → b < 256 → bit_xor (q * 256 + h) b % 256 ≡ bit_xor h b
index_of q h b hh hb =
    let b_only : 0 * 256 + b ≡ b = omega arith in
    let apart = rw (b_only, bit_xor-zero q) at (bit_xor-split 8 q 0 h b hh hb) in
    omega (arith, apart, bit_xor-lt 8 h b hh hb)

-- And what is above the register is left as it is.
above : (w q x t : ℕ) → x < pow w → t < pow w → bit_xor (q * pow w + x) t ≡ q * pow w + bit_xor x t
above w q x t hx ht =
    let t_only : 0 * pow w + t ≡ t = omega arith in
    rw (t_only, bit_xor-zero q) at (bit_xor-split w q 0 x t hx ht)

-- One byte: `top` is the register from its top byte `h` on, and `up` is it moved up by a byte; the
-- part of it that counts is `h` and, below it, `l`.
one_byte :
    (table : List ℕ) (k d poly q h l b n top up : ℕ)
    → every 256 (is_right table k d poly) ≡ true
    → pow (suc k) ≡ pow d * 256
    → poly < pow (suc k)
    → 0 < pow d
    → h < 256
    → l < pow d
    → b < 256
    → top ≡ q * 256 + h
    → up ≡ n * pow (suc k) + l * 256
    → let next = rounds 8 k poly (bit_xor (h * pow d + l) (b * pow d)) in
      (bit_xor up (entry table (bit_xor top b % 256)) ≡ n * pow (suc k) + next)
      × (next < pow (suc k))
one_byte table k d poly q h l b n top up right width hp pos hh hl hb e f =
    let i = bit_xor h b in
    let index : bit_xor top b % 256 ≡ i = ap (λ x. bit_xor x b % 256) e ∙ index_of q h b hh hb in
    let t = (right_at table k d poly i right (bit_xor-lt 8 h b hh hb)).1 in
    let shifted : l * 256 < pow (suc k) = omega (arith, width) in
    let steps = rounds-entry table k d poly h l b right width hp pos hh hl hb in
    (
      ap₂ (λ x j. bit_xor x (entry table j)) f index
          ∙ above (suc k) n (l * 256) (entry table i) shifted t
          ∙ ap (λ x. n * pow (suc k) + x) (sym steps),
      subst (λ x. x < pow (suc k)) (sym steps)
          (bit_xor-lt (suc k) (l * 256) (entry table i) shifted t),
    )

crc16_step :
    (crc b : ℕ)
    → b < 256
    → bit_xor (crc * 2 ^ 8 % 2 ^ 32) (entry crc16_lookup (bit_xor (crc / 2 ^ 8) b % 2 ^ 8)) % 2 ^ 16
      ≡ rounds 8 15 0x1021 (bit_xor (crc % 2 ^ 16) (b * 2 ^ 8))
crc16_step crc b hb =
    let h = crc / 2 ^ 8 % 2 ^ 8 in
    let l = crc % 2 ^ 8 in
    let up = crc * 2 ^ 8 % 2 ^ 32 in
    let reg : crc % 2 ^ 16 ≡ h * 2 ^ 8 + l = omega arith in
    let step =
      one_byte crc16_lookup 15 8 0x1021 (crc / 2 ^ 16) h l b (up / 2 ^ 16) (crc / 2 ^ 8) up
        crc16_right refl (omega arith) (omega arith) (omega arith) (omega arith) hb (omega arith)
        (omega arith) in
    rw reg (omega (arith, step))

crc24_step :
    (crc b : ℕ)
    → b < 256
    → bit_xor (crc * 2 ^ 8 % 2 ^ 64) (entry crc24_lookup (bit_xor (crc / 2 ^ 16) b % 2 ^ 8))
        % 2 ^ 24
      ≡ rounds 8 23 0x864cfb (bit_xor (crc % 2 ^ 24) (b * 2 ^ 16))
crc24_step crc b hb =
    let h = crc / 2 ^ 16 % 2 ^ 8 in
    let l = crc % 2 ^ 16 in
    let up = crc * 2 ^ 8 % 2 ^ 64 in
    let reg : crc % 2 ^ 24 ≡ h * 2 ^ 16 + l = omega arith in
    let step =
      one_byte crc24_lookup 23 16 0x864cfb (crc / 2 ^ 24) h l b (up / 2 ^ 24) (crc / 2 ^ 16) up
        crc24_right refl (omega arith) (omega arith) (omega arith) (omega arith) hb (omega arith)
        (omega arith) in
    rw reg (omega (arith, step))

crc32_step :
    (crc b : ℕ)
    → b < 256
    → bit_xor (crc * 2 ^ 8 % 2 ^ 64) (entry crc32_lookup (bit_xor (crc / 2 ^ 24) b % 2 ^ 8))
        % 2 ^ 32
      ≡ rounds 8 31 0x4c11db7 (bit_xor (crc % 2 ^ 32) (b * 2 ^ 24))
crc32_step crc b hb =
    let h = crc / 2 ^ 24 % 2 ^ 8 in
    let l = crc % 2 ^ 24 in
    let up = crc * 2 ^ 8 % 2 ^ 64 in
    let reg : crc % 2 ^ 32 ≡ h * 2 ^ 24 + l = omega arith in
    let step =
      one_byte crc32_lookup 31 24 0x4c11db7 (crc / 2 ^ 32) h l b (up / 2 ^ 32) (crc / 2 ^ 24) up
        crc32_right refl (omega arith) (omega arith) (omega arith) (omega arith) hb (omega arith)
        (omega arith) in
    rw reg (omega (arith, step))

crc16_loop-crc_of :
    (bytes : List ℕ) (crc : ℕ)
    → Bytes bytes
    → crc16_loop bytes crc % 2 ^ 16 ≡ crc_of 15 0x1021 bytes (crc % 2 ^ 16)
unfolding crc16_loop crc_of
crc16_loop-crc_of [] crc v = refl
crc16_loop-crc_of (b ∷ bs) crc v =
    crc16_loop-crc_of bs _ v.1 ∙ ap (crc_of 15 0x1021 bs) (crc16_step crc b v.0)

crc24_loop-crc_of :
    (bytes : List ℕ) (crc : ℕ)
    → Bytes bytes
    → crc24_loop bytes crc % 2 ^ 24 ≡ crc_of 23 0x864cfb bytes (crc % 2 ^ 24)
unfolding crc24_loop crc_of
crc24_loop-crc_of [] crc v = refl
crc24_loop-crc_of (b ∷ bs) crc v =
    crc24_loop-crc_of bs _ v.1 ∙ ap (crc_of 23 0x864cfb bs) (crc24_step crc b v.0)

crc32_loop-crc_of :
    (bytes : List ℕ) (crc : ℕ)
    → Bytes bytes
    → crc32_loop bytes crc % 2 ^ 32 ≡ crc_of 31 0x4c11db7 bytes (crc % 2 ^ 32)
unfolding crc32_loop crc_of
crc32_loop-crc_of [] crc v = refl
crc32_loop-crc_of (b ∷ bs) crc v =
    crc32_loop-crc_of bs _ v.1 ∙ ap (crc_of 31 0x4c11db7 bs) (crc32_step crc b v.0)

-- On a list of bytes that is not empty, and from any start value, each of the three functions is
-- the cyclic redundancy check of its polynomial as it is defined a bit at a time, on the low 16,
-- 24 or 32 bits of the start value.
pub crc-crc_of :
    (bytes : List ℕ) (crc : ℕ)
    → 0 < length bytes
    → Bytes bytes
    → (crc16 bytes crc ≡ ok (crc_of 15 0x1021 bytes (crc % 2 ^ 16)))
      × (crc24 bytes crc ≡ ok (crc_of 23 0x864cfb bytes (crc % 2 ^ 24)))
      × (crc32 bytes crc ≡ ok (crc_of 31 0x4c11db7 bytes (crc % 2 ^ 32)))
unfolding crc16 crc24 crc32
crc-crc_of bytes crc some_byte v =
    let nonempty : ltb 0 (length bytes) ≡ true = ground arith in
    rw nonempty (
      ap ok (crc16_loop-crc_of bytes crc v),
      ap ok (crc24_loop-crc_of bytes crc v),
      ap ok (crc32_loop-crc_of bytes crc v),
    )
