-- ===== src/Crc/Lookup.antt =====
-- The tables against the definition: entry `h` is what eight steps make of `h` in the top byte.
use amast.Common.{
  ℕ, suc, ◌*◌, ◌<◌, ◌≡◌, refl, arith, Bool, true, ◌&&◌, ltb, ◌==◌, List, pow, every, every-test,
  bit_xor, ◌≤◌, ◌+◌, sym, ap, ◌∙◌, bit_xor-lt, bit_xor-split, bit_xor_comm, bit_xor-zero,
  zero-bit_xor,
}
use amast.Bit.{entry}
use amast.Crc.Tables.{crc16_lookup, crc24_lookup, crc32_lookup}
use amast.Crc.Rounds.{rounds, rounds-bit_xor}

-- one entry of a table, for a register of `suc k` bits, of which `d` are below the top byte
pub is_right : (table : List ℕ) (k d poly h : ℕ) → Bool
unfolding rounds
is_right table k d poly h =
    entry table h == rounds 8 k poly (h * pow d) && ltb (entry table h) (pow (suc k))

pub crc16_right : every 256 (is_right crc16_lookup 15 8 0x1021) ≡ true
unfolding every is_right
crc16_right = refl

pub crc24_right : every 256 (is_right crc24_lookup 23 16 0x864cfb) ≡ true
unfolding every is_right
crc24_right = refl

pub crc32_right : every 256 (is_right crc32_lookup 31 24 0x4c11db7) ≡ true
unfolding every is_right
crc32_right = refl

pub right_at :
    (table : List ℕ) (k d poly h : ℕ)
    → every 256 (is_right table k d poly) ≡ true
    → h < 256
    → (entry table h ≡ rounds 8 k poly (h * pow d)) × (entry table h < pow (suc k))
unfolding is_right
right_at table k d poly h right lt =
    parts (entry table h) (rounds 8 k poly (h * pow d)) (pow (suc k))
      (every-test 256 (is_right table k d poly) h right lt)
  where
    parts : (x y p : ℕ) → (x == y && ltb x p) ≡ true → (x ≡ y) × (x < p)
    parts x y p e = ground arith

below_top : (h p : ℕ) → h < 256 → h * p + p ≤ p * 256
below_top h p lt = grind arith

-- Eight steps of the definition are one look at a table: for a register whose top byte is `h`, with
-- `l` below it.
pub rounds-entry :
    (table : List ℕ) (k d poly h l b : ℕ)
    → every 256 (is_right table k d poly) ≡ true
    → pow (suc k) ≡ pow d * 256
    → poly < pow (suc k)
    → 0 < pow d
    → h < 256
    → l < pow d
    → b < 256
    → rounds 8 k poly (bit_xor (h * pow d + l) (b * pow d))
      ≡ bit_xor (l * 256) (entry table (bit_xor h b))
rounds-entry table k d poly h l b right width hp pos hh hl hb =
    let i = bit_xor h b in
    let i_lt : i < 256 = bit_xor-lt 8 h b hh hb in
    let right_i = right_at table k d poly i right i_lt in
    let top : i * pow d < pow (suc k) = omega (arith, below_top i (pow d) i_lt) in
    let b_zero : b * pow d + 0 ≡ b * pow d = omega arith in
    let i_zero : i * pow d + 0 ≡ i * pow d = omega arith in
    let l_only : 0 * pow d + l ≡ l = omega arith in
    let mixed = rw (b_zero, bit_xor-zero l) at (bit_xor-split d h b l 0 hl pos) in
    let apart =
      rw (i_zero, l_only, bit_xor-zero i, zero-bit_xor l) at (bit_xor-split d i 0 0 l pos hl) in
    ap (rounds 8 k poly) (mixed ∙ sym apart)
    ∙ rounds-bit_xor 8 k poly (i * pow d) l hp top (omega arith)
    ∙ ap (λ x. bit_xor x (l * 256)) (sym right_i.0)
    ∙ bit_xor_comm (entry table i) (l * 256)
