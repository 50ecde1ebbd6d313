-- ===== src/Dlist/Walk.antt =====
-- am_dlist_owns and am_dlist_find.
use amast.Common.{ℕ, zero, suc, ◌<◌, ◌≡◌, ◌≢◌, arith, List, [], ◌∷◌, Bool, ok, length}
use amast.Slist.Chain.{Fresh, non_null_true}
use amast.Slist.Search.{has, first_found}
use amast.Dlist.{Links, owns, owns_loop, find, find_loop}
use amast.Dlist.Ring.{Linked, Holds}

owns_loop-Linked :
    (fuel : ℕ) (l : Links) (list item p : ℕ) (xs : List ℕ)
    → Linked l list p xs
    → Fresh list xs
    → length xs < fuel
    → owns_loop fuel l list (l.next p) item ≡ ok (has item xs)
unfolding owns_loop
owns_loop-Linked zero l list item p xs c f h = elim h [ ]
owns_loop-Linked (suc k) l list item p [] c f h = ground arith
owns_loop-Linked (suc k) l list item p (x ∷ xs) c f h =
    ground (arith, owns_loop-Linked k l list item x xs c.1.1 f.1)

find_loop-Linked :
    (fuel : ℕ) (l : Links) (list p : ℕ) (is_found : ℕ → Bool) (xs : List ℕ)
    → Linked l list p xs
    → Fresh list xs
    → length xs < fuel
    → find_loop fuel l list (l.next p) is_found ≡ ok (first_found is_found xs)
unfolding find_loop
find_loop-Linked zero l list p is_found xs c f h = elim h [ ]
find_loop-Linked (suc k) l list p is_found [] c f h = ground arith
find_loop-Linked (suc k) l list p is_found (x ∷ xs) c f h =
    ground (arith, find_loop-Linked k l list x is_found xs c.1.1 f.1)

-- With one round for each item and one more, am_dlist_owns returns, and says whether the item is
-- one of the list's.
pub owns-Linked :
    (fuel : ℕ) (l : Links) (list item : ℕ) (xs : List ℕ)
    → Holds l list xs
    → item ≢ 0
    → length xs < fuel
    → owns fuel l list item ≡ ok (has item xs)
unfolding owns
owns-Linked fuel l list item xs h ne enough =
    rw (non_null_true item ne)
      (owns_loop-Linked fuel l list item list xs h.linked h.distinct.0 enough)

-- With one round for each item and one more, am_dlist_find returns the first item that satisfies
-- the test, or NULL where none does.
pub find-Linked :
    (fuel : ℕ) (l : Links) (list : ℕ) (is_found : ℕ → Bool) (xs : List ℕ)
    → Holds l list xs
    → length xs < fuel
    → find fuel l list is_found ≡ ok (first_found is_found xs)
unfolding find
find-Linked fuel l list is_found xs h enough =
    find_loop-Linked fuel l list list is_found xs h.linked h.distinct.0 enough
