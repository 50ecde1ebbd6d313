-- ===== src/Common/Xor.antt =====
-- Exclusive or of numbers, digit by digit: it splits at a power of two, and it is commutative and
-- associative.
use Prim.Native.Nat.{
  ℕ, zero, suc, ◌+◌, ◌*◌, ◌/◌, ◌%◌, ◌≤◌, ◌<◌, bit_xor, digits, differ, bit_xor-bitwise,
}
use mathlib.Core.Path.{◌≡◌, refl, sym, ◌∙◌, ap}
use native.Mathlib.Omega.{arith}

-- the `k`-th power of two
abbrev pub pow : ℕ → ℕ
pow zero = 1
pow (suc k) = pow k * 2

xor_upto : ℕ → ℕ → ℕ → ℕ
xor_upto n a b = digits (λ y. y) differ n a b

of_zero : (n b : ℕ) → xor_upto n 0 b ≡ b
unfolding xor_upto
of_zero zero b = refl
of_zero (suc n) b = refl

-- More digits than the first number has change nothing.
spare : (n m a b : ℕ) → a ≤ n → a ≤ m → xor_upto n a b ≡ xor_upto m a b
unfolding xor_upto
spare n m zero b le le' = of_zero n b ∙ sym (of_zero m b)
spare zero m (suc a) b le le' = absurd (omega arith)
spare (suc n) zero (suc a) b le le' = absurd (omega arith)
spare (suc n) (suc m) (suc a) b le le' =
    ap (λ x. x * 2 + differ (suc a % 2) (b % 2))
      (spare n m (suc a / 2) (b / 2) (omega arith) (omega arith))

pub bit_xor-halves : (a b : ℕ) → bit_xor a b ≡ bit_xor (a / 2) (b / 2) * 2 + differ (a % 2) (b % 2)
unfolding xor_upto
bit_xor-halves zero b = omega (arith, bit_xor-bitwise 0 b, bit_xor-bitwise 0 (b / 2))
bit_xor-halves (suc a) b = omega (
  arith,
  bit_xor-bitwise (suc a) b,
  bit_xor-bitwise (suc a / 2) (b / 2),
  spare a (suc a / 2) (suc a / 2) (b / 2) (omega arith) (omega arith),
)

-- On numbers given by their halves and last digits.
pub bit_xor-doubles :
    (a b r s : ℕ) → r < 2 → s < 2 → bit_xor (a * 2 + r) (b * 2 + s) ≡ bit_xor a b * 2 + differ r s
bit_xor-doubles a b r s hr hs =
    let q : (a * 2 + r) / 2 ≡ a = omega arith in
    let q' : (b * 2 + s) / 2 ≡ b = omega arith in
    let m : (a * 2 + r) % 2 ≡ r = omega arith in
    let m' : (b * 2 + s) % 2 ≡ s = omega arith in
    rw (q, q', m, m') at (bit_xor-halves (a * 2 + r) (b * 2 + s))

differ-lt : (r s : ℕ) → r < 2 → s < 2 → differ r s < 2
differ-lt zero s hr hs = hs
differ-lt (suc zero) zero hr hs = omega arith
differ-lt (suc zero) (suc zero) hr hs = omega arith
differ-lt (suc zero) (suc (suc s)) hr hs = absurd (omega arith)
differ-lt (suc (suc r)) s hr hs = absurd (omega arith)

pub bit_xor-lt : (k r s : ℕ) → r < pow k → s < pow k → bit_xor r s < pow k
bit_xor-lt zero r s hr hs =
    let z : r ≡ 0 = omega arith in
    let z' : s ≡ 0 = omega arith in rw (z, z') (omega (arith, bit_xor-bitwise 0 0))
bit_xor-lt (suc k) r s hr hs =
    let half = bit_xor-lt k (r / 2) (s / 2) (omega arith) (omega arith) in
    let digit = differ-lt (r % 2) (s % 2) (omega arith) (omega arith) in
    omega (arith, bit_xor-halves r s)

times_two : (x y : ℕ) → x * (y * 2) ≡ x * y * 2
times_two x y = grind arith

-- High and low parts are treated apart.
pub bit_xor-split :
    (k a b r s : ℕ)
    → r < pow k
    → s < pow k
    → bit_xor (a * pow k + r) (b * pow k + s) ≡ bit_xor a b * pow k + bit_xor r s
bit_xor-split zero a b r s hr hs =
    let z : r ≡ 0 = omega arith in
    let z' : s ≡ 0 = omega arith in
    let l : a * 1 + r ≡ a = omega arith in
    let l' : b * 1 + s ≡ b = omega arith in rw (l, l', z, z') (omega (arith, bit_xor-bitwise 0 0))
bit_xor-split (suc k) a b r s hr hs =
    let p = pow k in
    let l : a * (p * 2) + r ≡ (a * p + r / 2) * 2 + r % 2 = omega (arith, times_two a p) in
    let l' : b * (p * 2) + s ≡ (b * p + s / 2) * 2 + s % 2 = omega (arith, times_two b p) in
    let high = bit_xor-split k a b (r / 2) (s / 2) (omega arith) (omega arith) in
    rw (l, l')
      (omega (
        arith,
        bit_xor-doubles (a * p + r / 2) (b * p + s / 2) (r % 2) (s % 2) (omega arith) (omega arith),
        high,
        bit_xor-halves r s,
        times_two (bit_xor a b) p,
      ))

differ_comm : (r s : ℕ) → differ r s ≡ differ s r
differ_comm zero zero = refl
differ_comm zero (suc s) = refl
differ_comm (suc r) zero = refl
differ_comm (suc r) (suc s) = differ_comm r s

comm_upto : (k a b : ℕ) → a < pow k → b < pow k → bit_xor a b ≡ bit_xor b a
comm_upto zero a b ha hb =
    let z : a ≡ 0 = omega arith in let z' : b ≡ 0 = omega arith in rw (z, z') refl
comm_upto (suc k) a b ha hb = omega (
  arith,
  bit_xor-halves a b,
  bit_xor-halves b a,
  comm_upto k (a / 2) (b / 2) (omega arith) (omega arith),
  differ_comm (a % 2) (b % 2),
)

small : (k : ℕ) → k < pow k
small zero = omega arith
small (suc k) = omega (arith, small k)

pub bit_xor_comm : (a b : ℕ) → bit_xor a b ≡ bit_xor b a
bit_xor_comm a b =
    comm_upto (a + b) a b (omega (arith, small (a + b))) (omega (arith, small (a + b)))

differ_parity : (r s : ℕ) → r < 2 → s < 2 → differ r s ≡ (r + s) % 2
differ_parity zero s hr hs = omega arith
differ_parity (suc zero) zero hr hs = refl
differ_parity (suc zero) (suc zero) hr hs = refl
differ_parity (suc zero) (suc (suc s)) hr hs = absurd (omega arith)
differ_parity (suc (suc r)) s hr hs = absurd (omega arith)

-- The halves and the last digit of an exclusive or.
half_of : (a b : ℕ) → bit_xor a b / 2 ≡ bit_xor (a / 2) (b / 2)
half_of a b =
    omega (arith, bit_xor-halves a b, differ-lt (a % 2) (b % 2) (omega arith) (omega arith))

digit_of : (a b : ℕ) → bit_xor a b % 2 ≡ (a % 2 + b % 2) % 2
digit_of a b =
    omega (arith, bit_xor-halves a b, differ_parity (a % 2) (b % 2) (omega arith) (omega arith))

assoc_upto :
    (k a b c : ℕ)
    → a < pow k
    → b < pow k
    → c < pow k
    → bit_xor (bit_xor a b) c ≡ bit_xor a (bit_xor b c)
assoc_upto zero a b c ha hb hc =
    let z : a ≡ 0 = omega arith in
    let z' : b ≡ 0 = omega arith in let z'' : c ≡ 0 = omega arith in rw (z, z', z'') refl
assoc_upto (suc k) a b c ha hb hc =
    let ih = assoc_upto k (a / 2) (b / 2) (c / 2) (omega arith) (omega arith) (omega arith) in
    let left : bit_xor (bit_xor a b) c / 2 ≡ bit_xor (bit_xor (a / 2) (b / 2)) (c / 2) =
      half_of (bit_xor a b) c ∙ ap (λ x. bit_xor x (c / 2)) (half_of a b) in
    let right : bit_xor a (bit_xor b c) / 2 ≡ bit_xor (a / 2) (bit_xor (b / 2) (c / 2)) =
      half_of a (bit_xor b c) ∙ ap (bit_xor (a / 2)) (half_of b c) in
    omega (
      arith,
      left ∙ ih ∙ sym right,
      digit_of (bit_xor a b) c,
      digit_of a b,
      digit_of a (bit_xor b c),
      digit_of b c,
    )

pub bit_xor_assoc : (a b c : ℕ) → bit_xor (bit_xor a b) c ≡ bit_xor a (bit_xor b c)
bit_xor_assoc a b c =
    let far = small (a + b + c) in
    assoc_upto (a + b + c) a b c (omega (arith, far)) (omega (arith, far)) (omega (arith, far))

pub zero-bit_xor : (a : ℕ) → bit_xor 0 a ≡ a
zero-bit_xor a = omega (arith, bit_xor-bitwise 0 a)

pub bit_xor-zero : (a : ℕ) → bit_xor a 0 ≡ a
bit_xor-zero a = bit_xor_comm a 0 ∙ zero-bit_xor a
