-- ===== src/Crc/Examples.antt =====
-- The checks of the nine digits 1 to 9.
use amast.Common.{ℕ, ◌%◌, ◌^◌, ◌≡◌, refl, arith, List, [], ◌∷◌, ok}
use amast.Crc.{crc16, crc24, crc32, crc16_loop, crc24_loop, crc32_loop}
use amast.Crc.Rounds.{crc_of}
use amast.Crc.Refine.{Bytes, crc-crc_of}

abbrev digits : List ℕ
digits = 0x31 ∷ 0x32 ∷ 0x33 ∷ 0x34 ∷ 0x35 ∷ 0x36 ∷ 0x37 ∷ 0x38 ∷ 0x39 ∷ []

digits-Bytes : Bytes digits
digits-Bytes = omega arith

digits_run :
    (crc16 digits 0xffff ≡ ok 0x29b1)
    × (crc24 digits 0xb704ce ≡ ok 0x21cf02)
    × (crc32 digits 0xffffffff ≡ ok 0x376e6e7)
unfolding crc16 crc24 crc32 crc16_loop crc24_loop crc32_loop
digits_run = (refl, refl, refl)

crc-crc_of_example :
    (crc16 digits 0xffff ≡ ok (crc_of 15 0x1021 digits (0xffff % 2 ^ 16)))
    × (crc24 digits 0xffff ≡ ok (crc_of 23 0x864cfb digits (0xffff % 2 ^ 24)))
    × (crc32 digits 0xffff ≡ ok (crc_of 31 0x4c11db7 digits (0xffff % 2 ^ 32)))
crc-crc_of_example = crc-crc_of digits 0xffff (omega arith) digits-Bytes
