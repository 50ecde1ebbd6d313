-- ===== src/Slist/Search.antt =====
-- am_slist_owns and am_slist_find.
use amast.Common.{
  ℕ, zero, suc, ◌<◌, ◌≡◌, sym, ◌≢◌, arith, List, [], ◌∷◌, ◌==◌, Bool, false, ◌||◌, if◌then◌else◌,
  ok, Returns, length,
}
use amast.Slist.{Links, Slist, owns, owns_loop, find, find_loop}
use amast.Slist.Chain.{Fresh, Chain, Holds, non_null_true}

-- whether `a` is one of the items
abbrev pub has : ℕ → List ℕ → Bool
has a [] = false
has a (x ∷ xs) = (x == a) || has a xs

-- the first item that satisfies the test, or NULL
abbrev pub first_found : (ℕ → Bool) → List ℕ → ℕ
first_found is_found [] = 0
first_found is_found (x ∷ xs) = if is_found x then x else first_found is_found xs

owns_loop-has :
    (fuel : ℕ) (next : Links) (stop item p : ℕ) (xs : List ℕ)
    → Chain next stop p xs
    → Fresh stop xs
    → length xs < fuel
    → owns_loop fuel next stop item (next p) ≡ ok (has item xs)
unfolding owns_loop
owns_loop-has zero next stop item p xs c f h = elim h [ ]
owns_loop-has (suc k) next stop item p [] c f h = ground arith
owns_loop-has (suc k) next stop item p (x ∷ xs) c f h =
    ground (arith, owns_loop-has k next stop item x xs c.1 f.1)

-- With one round for each item and one more, am_slist_owns returns, and says whether the item is
-- one of the list's.
pub owns-has :
    (fuel : ℕ) (next : Links) (l : Slist) (xs : List ℕ) (item : ℕ)
    → Holds next l xs
    → item ≢ 0
    → length xs < fuel
    → owns fuel next l item ≡ ok (has item xs)
unfolding owns
owns-has fuel next l xs item h ne enough =
    rw (non_null_true item ne)
      (owns_loop-has fuel next l.sentinel item l.sentinel xs h.chain h.distinct.0 enough)

find_loop-first :
    (fuel : ℕ) (next : Links) (stop : ℕ) (is_found : ℕ → Bool) (p : ℕ) (xs : List ℕ)
    → Chain next stop p xs
    → Fresh stop xs
    → Fresh 0 xs
    → stop ≢ 0
    → length xs < fuel
    → Returns
        (λ item. (if item == stop then 0 else item) ≡ first_found is_found xs)
        (find_loop fuel next stop is_found (next p))
unfolding find_loop
find_loop-first zero next stop is_found p xs c f z ne h = elim h [ ]
find_loop-first (suc k) next stop is_found p [] c f z ne h = ground arith
find_loop-first (suc k) next stop is_found p (x ∷ xs) c f z ne h =
    ground (arith, find_loop-first k next stop is_found x xs c.1 f.1 z.1 ne)

-- With one round for each item and one more, am_slist_find returns the first item that satisfies
-- the test, or NULL where none does.
pub find-first :
    (fuel : ℕ) (next : Links) (l : Slist) (xs : List ℕ) (is_found : ℕ → Bool)
    → Holds next l xs
    → length xs < fuel
    → find fuel next l is_found ≡ ok (first_found is_found xs)
unfolding find
find-first fuel next l xs is_found h enough = ground (
  arith,
  find_loop-first fuel next l.sentinel is_found l.sentinel xs h.chain h.distinct.0 h.non_null.1
      (λ e. h.non_null.0 (sym e)) enough,
)
