-- ===== src/Crc/Rounds.antt =====
-- The definition of a cyclic redundancy check, a bit at a time, and its linearity.
use amast.Common.{
  ℕ, zero, suc, ◌+◌, ◌-◌, ◌*◌, ◌≤◌, ◌<◌, ◌≡◌, inl, inr, refl, ap, sym, ◌∙◌, arith, true, false, leb,
  if◌then◌else◌, List, [], ◌∷◌, Bool-cases, bit_xor, pow, bit_xor-lt, bit_xor-split, bit_xor_assoc,
  bit_xor_comm, bit_xor-zero, bit_xor-doubles,
}

-- One step of the division by a polynomial of degree `suc k`: the register of `suc k` bits moves up
-- by one place, and the polynomial is taken off if a one has left it.
pub round : (k poly x : ℕ) → ℕ
round k poly x = if leb (pow k) x then bit_xor ((x - pow k) * 2) poly else x * 2

unfoldable pub rounds : ℕ → (k poly x : ℕ) → ℕ
unfolding round
rounds zero k poly x = x
rounds (suc n) k poly x = rounds n k poly (round k poly x)

-- The check of a list of bytes: each goes to the top of the register, and eight steps follow.
unfoldable pub crc_of : (k poly : ℕ) → List ℕ → ℕ → ℕ
unfolding rounds
crc_of k poly [] x = x
crc_of k poly (b ∷ bs) x = crc_of k poly bs (rounds 8 k poly (bit_xor x (b * pow (suc k - 8))))

round_low : (k poly r : ℕ) → r < pow k → round k poly r ≡ r * 2
unfolding round
round_low k poly r h = let out : leb (pow k) r ≡ false = ground arith in rw out refl

round_high : (k poly r : ℕ) → round k poly (pow k + r) ≡ bit_xor (r * 2) poly
unfolding round
round_high k poly r =
    let out : leb (pow k) (pow k + r) ≡ true = ground arith in
    let rest : pow k + r - pow k ≡ r = omega arith in rw (out, rest) refl

bit_xor-double : (a b : ℕ) → bit_xor (a * 2) (b * 2) ≡ bit_xor a b * 2
bit_xor-double a b =
    let e : a * 2 + 0 ≡ a * 2 = omega arith in
    let f : b * 2 + 0 ≡ b * 2 = omega arith in
    let d = bit_xor-doubles a b 0 0 (omega arith) (omega arith) in omega (arith, rw (e, f) at d)

-- A leading one stays where the other number has none.
high_part : (k r l : ℕ) → r < pow k → l < pow k → bit_xor (pow k + r) l ≡ pow k + bit_xor r l
high_part k r l hr hl =
    let e : 1 * pow k + r ≡ pow k + r = omega arith in
    let f : 0 * pow k + l ≡ l = omega arith in
    let s = bit_xor-split k 1 0 r l hr hl in omega (arith, rw (e, f, bit_xor-zero 1) at s)

swap_last : (a b c : ℕ) → bit_xor (bit_xor a b) c ≡ bit_xor (bit_xor a c) b
swap_last a b c =
    bit_xor_assoc a b c ∙ ap (bit_xor a) (bit_xor_comm b c) ∙ sym (bit_xor_assoc a c b)

-- A step is linear in what does not reach the top bit.
round-bit_xor :
    (k poly x l : ℕ)
    → x < pow (suc k)
    → l < pow k
    → round k poly (bit_xor x l) ≡ bit_xor (round k poly x) (l * 2)
round-bit_xor k poly x l hx hl = elim (Bool-cases (leb (pow k) x)) [
  | inl e ↦
      let r = x - pow k in
      let top : x ≡ pow k + r = ground arith in
      let hr : r < pow k = omega arith in
      let mixed = bit_xor-lt k r l hr hl in
      rw top (
        ap (round k poly) (high_part k r l hr hl)
        ∙ round_high k poly (bit_xor r l)
        ∙ ap (λ y. bit_xor y poly) (sym (bit_xor-double r l))
        ∙ swap_last (r * 2) (l * 2) poly
        ∙ ap (λ y. bit_xor y (l * 2)) (sym (round_high k poly r)))
  | inr e ↦
      let hr : x < pow k = ground arith in
      round_low k poly (bit_xor x l) (bit_xor-lt k x l hr hl)
      ∙ sym (bit_xor-double x l)
      ∙ ap (λ y. bit_xor y (l * 2)) (sym (round_low k poly x hr))
]

round-lt : (k poly x : ℕ) → poly < pow (suc k) → x < pow (suc k) → round k poly x < pow (suc k)
unfolding round
round-lt k poly x hp hx = elim (Bool-cases (leb (pow k) x)) [
  | inl e ↦ rw e (bit_xor-lt (suc k) ((x - pow k) * 2) poly (ground arith) hp)
  | inr e ↦ let low : x < pow k = ground arith in rw e (omega arith)
]

twice_of : (l p : ℕ) → l * (p * 2) ≡ l * p * 2
twice_of l p = grind arith

twice_first : (l p : ℕ) → l * 2 * p ≡ l * p * 2
twice_first l p = grind arith

pub grows : (l n : ℕ) → l ≤ l * pow n
grows l zero = omega arith
grows l (suc n) = omega (arith, grows l n, twice_of l (pow n))

-- Several steps are linear in what does not reach the top bit by then.
pub rounds-bit_xor :
    (n k poly x l : ℕ)
    → poly < pow (suc k)
    → x < pow (suc k)
    → l * pow n < pow (suc k)
    → rounds n k poly (bit_xor x l) ≡ bit_xor (rounds n k poly x) (l * pow n)
unfolding rounds
rounds-bit_xor zero k poly x l hp hx hl = ap (bit_xor x) (omega arith)
rounds-bit_xor (suc n) k poly x l hp hx hl =
    let l_lt : l < pow k = omega (arith, grows l n, twice_of l (pow n)) in
    let more : l * 2 * pow n < pow (suc k) =
      omega (arith, twice_of l (pow n), twice_first l (pow n)) in
    let same : l * 2 * pow n ≡ l * (pow n * 2) =
      omega (arith, twice_of l (pow n), twice_first l (pow n)) in
    ap (rounds n k poly) (round-bit_xor k poly x l hx l_lt)
    ∙ rounds-bit_xor n k poly (round k poly x) (l * 2) hp (round-lt k poly x hp hx) more
    ∙ ap (bit_xor (rounds n k poly (round k poly x))) same
