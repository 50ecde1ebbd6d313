-- ===== src/Common/Asserts.antt =====
-- Runs of code that contains AM_ASSERT (libs/common/macros.h): `fault` is a failed assertion,
-- after which the program does not go on.
use mathlib.Core.Path.{◌≡◌, refl}
use mathlib.Core.Bool.{Bool, true, false}

pub data Checked {ℓ} (A : Type ℓ) : Type ℓ where
  ok : A → Checked A
  fault : Checked A

infixl 5 ◌>>=◌ ◌>>◌
abbrev pub ◌>>=◌ {ℓ κ} : {A : Type ℓ} {B : Type κ} → Checked A → (A → Checked B) → Checked B
ok a >>= f = f a
fault >>= f = fault

abbrev pub ◌>>◌ {ℓ} : {B : Type ℓ} → Checked (Unit {0}) → Checked B → Checked B
m >> k = m >>= λ _. k

-- AM_ASSERT(b)
abbrev pub check : Bool → Checked (Unit {0})
check true = ok tt
check false = fault

-- The run does not fault, and its result satisfies `P`.
abbrev pub Returns {ℓ} : {A : Type ℓ} → (A → Type 0) → Checked A → Type 0
Returns P (ok a) = P a
Returns P fault = ⊥

-- A postcondition holds of whatever the run gives.
pub Returns-elim {ℓ} :
    {A : Type ℓ} (P : A → Type 0) {m : Checked A} {a : A} → Returns P m → m ≡ ok a → P a
Returns-elim P r e = rw e at r

-- The rule for a sequence of two runs.
pub Returns-bind {ℓ κ} :
    {A : Type ℓ} {B : Type κ} (P : A → Type 0) (Q : B → Type 0) (m : Checked A) (f : A → Checked B)
    → Returns P m
    → ((a : A) → P a → Returns Q (f a))
    → Returns Q (m >>= f)
Returns-bind P Q (ok a) f p next = next a p
Returns-bind P Q fault f p next = absurd p

-- A run that returns gives some value.
pub Returns-value {ℓ} :
    {A : Type ℓ} (P : A → Type 0) (m : Checked A) → Returns P m → (a : A) × (m ≡ ok a) × P a
Returns-value P (ok a) p = (a, refl, p)
Returns-value P fault p = absurd p

-- Two runs in sequence, of which the first is itself a sequence.
pub >>=-assoc {ℓ κ μ} :
    {A : Type ℓ} {B : Type κ} {C : Type μ} (m : Checked A) (f : A → Checked B) (g : B → Checked C)
    (h : A → Checked C)
    → ((a : A) → h a ≡ (f a >>= g))
    → (m >>= h) ≡ ((m >>= f) >>= g)
>>=-assoc (ok a) f g h e = e a
>>=-assoc fault f g h e = refl

-- Continuations that agree on every value make the same run.
pub >>=-congr {ℓ κ} :
    {A : Type ℓ} {B : Type κ} (m : Checked A) (f g : A → Checked B)
    → ((a : A) → f a ≡ g a)
    → (m >>= f) ≡ (m >>= g)
>>=-congr (ok a) f g e = e a
>>=-congr fault f g e = refl

-- A weaker postcondition holds too.
pub Returns-map {ℓ} :
    {A : Type ℓ} (P Q : A → Type 0) (m : Checked A)
    → ((a : A) → P a → Q a)
    → Returns P m
    → Returns Q m
Returns-map P Q (ok a) f p = f a p
Returns-map P Q fault f p = p
