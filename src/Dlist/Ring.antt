-- ===== src/Dlist/Ring.antt =====
-- Which items a list holds: the links from the sentinel back to it, in both directions.
use amast.Common.{ℕ, ◌≡◌, arith, List, [], ◌∷◌}
use amast.Slist.Chain.{Fresh, Distinct}
use amast.Dlist.{Links, set_next, set_prev}

-- From `p` the next fields lead through `xs` to `stop`, and the prev fields back.
abbrev pub Linked : Links → ℕ → ℕ → List ℕ → Type 0
Linked l stop p [] = (l.next p ≡ stop) × (l.prev stop ≡ p)
Linked l stop p (x ∷ xs) = (l.next p ≡ x) × ((l.prev x ≡ p) × Linked l stop x xs)

-- The list with the sentinel `list` holds the items `xs`, front first.
pub record Holds (l : Links) (list : ℕ) (xs : List ℕ) : Type 0 where
  pub linked : Linked l list list xs
  pub distinct : Distinct (list ∷ xs)
  pub non_null : Fresh 0 (list ∷ xs)

pub Linked-set_next :
    (l : Links) (stop p : ℕ) (xs : List ℕ) (a v : ℕ)
    → Linked l stop p xs
    → Fresh a (p ∷ xs)
    → Linked (set_next l a v) stop p xs
Linked-set_next l stop p [] a v c f = (ground arith, c.1)
Linked-set_next l stop p (x ∷ xs) a v c f =
    (ground arith, (c.1.0, Linked-set_next l stop x xs a v c.1.1 f.1))

pub Linked-set_prev :
    (l : Links) (stop p : ℕ) (xs : List ℕ) (a v : ℕ)
    → Linked l stop p xs
    → Fresh a (stop ∷ xs)
    → Linked (set_prev l a v) stop p xs
Linked-set_prev l stop p [] a v c f = (c.0, ground arith)
Linked-set_prev l stop p (x ∷ xs) a v c f =
    (c.0, (ground arith, Linked-set_prev l stop x xs a v c.1.1 (f.0, f.1.1)))
