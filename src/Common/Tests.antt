-- ===== src/Common/Tests.antt =====
-- Boolean tests on native numbers, and the conditional of C.
use Prim.Native.Nat.{ℕ, ◌%◌, ◌≤◌, ◌<◌, compare, Ordering}
use mathlib.Core.Path.{◌≡◌, refl}
use mathlib.Core.Logic.{◌↔◌, ◌⊎◌, inl, inr}
use mathlib.Core.Bool.{Bool, true, false}
use native.Mathlib.Nat.{mod_self, mod-eq_of_lt}
use native.Mathlib.Omega.{arith}

abbrev pub ltb : ℕ → ℕ → Bool
ltb a b = elim (compare a b) [ Ordering.lt ↦ true | _ ↦ false ]

abbrev pub leb : ℕ → ℕ → Bool
leb a b = elim (compare a b) [ Ordering.gt ↦ false | _ ↦ true ]

infix 50 ◌==◌
abbrev pub ◌==◌ : ℕ → ℕ → Bool
a == b = elim (compare a b) [ Ordering.eq ↦ true | _ ↦ false ]

infix 1 if◌then◌else◌
abbrev pub if◌then◌else◌ {ℓ} : {A : Type ℓ} → Bool → A → A → A
if true then x else y = x
if false then x else y = y

pub ==_iff : (a b : ℕ) → ((a == b) ≡ true) ↔ (a ≡ b)
==_iff a b = ground arith

pub Bool-cases : (b : Bool) → (b ≡ true) ⊎ (b ≡ false)
Bool-cases true = inl refl
Bool-cases false = inr refl

-- The remainder of an offset that may reach the size, but not pass it.
pub mod-at-most : (a n : ℕ) → a ≤ n → 0 < n → a % n ≡ (if a == n then 0 else a)
mod-at-most a n h p = elim (Bool-cases (a == n)) [
  | inl e ↦ rw e (rw ((==_iff a n).0 e) (mod_self n))
  | inr e ↦ rw e (mod-eq_of_lt (ground arith))
]
