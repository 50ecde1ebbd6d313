-- ===== src/Bit/Msb.antt =====
-- am_bit_u8_msb: the highest bit of a byte.
use amast.Common.{
  ℕ, ◌<◌, ◌≡◌, ◌≢◌, refl, arith, Bool, true, false, not, ◌&&◌, ◌||◌, ltb, leb, ◌==◌, List, [], ◌∷◌,
  has_bit, clear_bit, bits_below, every, every-test, Bool-cases, ==_iff, inl, inr,
}
use amast.Bit.{u8_msb}

abbrev same_list : List ℕ → List ℕ → Bool
same_list [] [] = true
same_list [] (y ∷ ys) = false
same_list (x ∷ xs) [] = false
same_list (x ∷ xs) (y ∷ ys) = x == y && same_list xs ys

same_list-eq : (xs ys : List ℕ) → same_list xs ys ≡ true → xs ≡ ys
same_list-eq [] [] h = refl
same_list-eq [] (y ∷ ys) h = ground arith
same_list-eq (x ∷ xs) [] h = ground arith
same_list-eq (x ∷ xs) (y ∷ ys) h = ground (arith, same_list-eq xs ys)

-- one row of the table: a byte that is not zero is its highest bit and the rest
split_row : ℕ → Bool
unfolding u8_msb bits_below has_bit clear_bit
split_row b =
    same_list (bits_below 8 b) (u8_msb b ∷ bits_below 8 (clear_bit b (u8_msb b))) || b == 0

top_row : ℕ → Bool
unfolding u8_msb has_bit
top_row b = (ltb (u8_msb b) 8 && has_bit b (u8_msb b)) || b == 0

above_row : ℕ → ℕ → Bool
unfolding u8_msb has_bit
above_row b j = not (has_bit b j) || leb j (u8_msb b)

split_table : every 256 split_row ≡ true
unfolding every split_row
split_table = refl

top_table : every 256 top_row ≡ true
unfolding every top_row
top_table = refl

above_table : every 256 (λ b. every 8 (above_row b)) ≡ true
unfolding every above_row
above_table = refl

left_of : {t : Bool} (b : ℕ) → (t || b == 0) ≡ true → b ≢ 0 → t ≡ true
left_of {t} b h ne = ground arith

top_parts : {x y : Bool} → (x && y) ≡ true → (x ≡ true) × (y ≡ true)
top_parts {x} {y} h = ground arith

-- The bits of a byte that is not zero are its highest one, and the bits that are left when that
-- one is cleared.
pub bits_below-msb :
    (b : ℕ) → b < 256 → b ≢ 0 → bits_below 8 b ≡ u8_msb b ∷ bits_below 8 (clear_bit b (u8_msb b))
unfolding split_row
bits_below-msb b lt ne =
    same_list-eq (bits_below 8 b) (u8_msb b ∷ bits_below 8 (clear_bit b (u8_msb b)))
      (left_of b (every-test 256 split_row b split_table lt) ne)

top_facts : (b : ℕ) → b < 256 → b ≢ 0 → (ltb (u8_msb b) 8 ≡ true) × (has_bit b (u8_msb b) ≡ true)
unfolding top_row
top_facts b lt ne = top_parts (left_of b (every-test 256 top_row b top_table lt) ne)

pub u8_msb-lt : (b : ℕ) → b < 256 → b ≢ 0 → u8_msb b < 8
u8_msb-lt b lt ne = ground (arith, top_facts b lt ne)

pub has_bit-u8_msb : (b : ℕ) → b < 256 → b ≢ 0 → has_bit b (u8_msb b) ≡ true
has_bit-u8_msb b lt ne = (top_facts b lt ne).1

-- No bit above the highest one is set.
pub above-u8_msb : (b j : ℕ) → b < 256 → j < 8 → u8_msb b < j → has_bit b j ≡ false
unfolding above_row
above-u8_msb b j lt hj above =
    let row = every-test 256 (λ b. every 8 (above_row b)) b above_table lt in
    under (every-test 8 (above_row b) j row hj)
  where
    under : (not (has_bit b j) || leb j (u8_msb b)) ≡ true → has_bit b j ≡ false
    under h = ground arith

-- A byte is zero when none of its bits is set.
pub none-zero : (b : ℕ) → b < 256 → ((i : ℕ) → i < 8 → has_bit b i ≡ false) → b ≡ 0
none-zero b lt none = elim (Bool-cases (b == 0)) [
  | inl e ↦ (==_iff b 0).0 e
  | inr e ↦
      let ne : b ≢ 0 = ground arith in
      absurd (ground (arith, has_bit-u8_msb b lt ne, none (u8_msb b) (u8_msb-lt b lt ne)))
]
