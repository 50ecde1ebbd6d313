-- ===== src/Crc.antt =====
-- libs/crc/crc.c: three cyclic redundancy checks, a byte at a time from tables. An `unsigned int`
-- has 32 bits and an `unsigned long` 64; data are a list of bytes.
pub mod Tables
pub mod Rounds
pub mod Lookup
pub mod Refine
mod Examples
use amast.Common.{
  ℕ, ◌+◌, ◌*◌, ◌/◌, ◌%◌, ◌^◌, List, [], ◌∷◌, ltb, Checked, ok, check, ◌>>=◌, ◌>>◌, length, bit_xor,
}
use amast.Bit.{entry}
use Tables.{crc16_lookup, crc24_lookup, crc32_lookup}

-- The loops of the three functions, with the remainder of an `unsigned int` or an `unsigned long`
-- at the shift. The index is a byte, so that the assertion in the loop of crc32 always holds.
unfoldable pub crc16_loop : List ℕ → ℕ → ℕ
crc16_loop [] crc = crc
crc16_loop (byte ∷ bytes) crc =
    let idx = bit_xor (crc / 2 ^ 8) byte % 2 ^ 8 in
    crc16_loop bytes (bit_xor (crc * 2 ^ 8 % 2 ^ 32) (entry crc16_lookup idx))

unfoldable pub crc24_loop : List ℕ → ℕ → ℕ
crc24_loop [] crc = crc
crc24_loop (byte ∷ bytes) crc =
    let index = bit_xor (crc / 2 ^ 16) byte % 2 ^ 8 in
    crc24_loop bytes (bit_xor (crc * 2 ^ 8 % 2 ^ 64) (entry crc24_lookup index))

unfoldable pub crc32_loop : List ℕ → ℕ → ℕ
crc32_loop [] crc = crc
crc32_loop (byte ∷ bytes) crc =
    let idx = bit_xor (crc / 2 ^ 24) byte % 2 ^ 8 in
    crc32_loop bytes (bit_xor (crc * 2 ^ 8 % 2 ^ 64) (entry crc32_lookup idx))

unfoldable pub crc16 : List ℕ → ℕ → Checked ℕ
unfolding crc16_loop
crc16 bytes crc = do check (ltb 0 (length bytes)); ok (crc16_loop bytes crc % 2 ^ 16)

unfoldable pub crc24 : List ℕ → ℕ → Checked ℕ
unfolding crc24_loop
crc24 bytes crc = do check (ltb 0 (length bytes)); ok (crc24_loop bytes crc % 2 ^ 24)

unfoldable pub crc32 : List ℕ → ℕ → Checked ℕ
unfolding crc32_loop
crc32 bytes crc = do check (ltb 0 (length bytes)); ok (crc32_loop bytes crc % 2 ^ 32)
