-- ===== src/Dlist/Change.antt =====
-- am_dlist_push_after, am_dlist_push_before and am_dlist_pop.
use amast.Common.{ℕ, ◌≡◌, ◌≢◌, refl, sym, arith, List, [], ◌∷◌, ◌++◌, ◌==◌, true, false, Returns}
use amast.Slist.Chain.{
  Fresh, Distinct, last, last-ne, non_null_true, Fresh-split, Fresh-append, Distinct-insert,
  Distinct-remove,
}
use amast.Dlist.{Links, set_next, set_prev, push_after, push_before, pop}
use amast.Dlist.Ring.{Linked, Holds, Linked-set_next, Linked-set_prev}

-- the links after `x` is put behind `q`, whose next item is `n`
abbrev pub pushed : Links → (q n x : ℕ) → Links
pushed l q n x = set_next (set_prev (set_prev (set_next l x n) x q) n x) q x

-- the links after `x` is taken out between `q` and `n`
abbrev pub popped : Links → (q n x : ℕ) → Links
popped l q n x = set_next (set_prev (set_next (set_prev l n q) q n) x 0) x 0

-- the first of the items, or `stop`
abbrev pub head : ℕ → List ℕ → ℕ
head stop [] = stop
head stop (x ∷ xs) = x

head-ne : (a stop : ℕ) (qs : List ℕ) → Fresh a (stop ∷ qs) → a ≢ head stop qs
head-ne a stop [] f = f.0
head-ne a stop (x ∷ qs) f = f.1.0

Linked-pushed :
    (l : Links) (stop p x : ℕ) (ps qs : List ℕ)
    → Linked l stop p (ps ++ qs)
    → Distinct (p ∷ (ps ++ qs))
    → Fresh stop (ps ++ qs)
    → Fresh x (stop ∷ (p ∷ (ps ++ qs)))
    → (l.next (last p ps) ≡ head stop qs)
      × Linked (pushed l (last p ps) (head stop qs) x) stop p (ps ++ (x ∷ qs))
Linked-pushed l stop p x [] [] c d s f = (c.0, ground arith)
Linked-pushed l stop p x [] (b ∷ qs) c d s f =
    let l1 = set_next l x b in
    let l2 = set_prev l1 x p in
    let l3 = set_prev l2 b x in
    let c1 = Linked-set_next l stop b qs x b c.1.1 f.1.1 in
    let c2 = Linked-set_prev l1 stop b qs x p c1 (f.0, f.1.1.1) in
    let c3 = Linked-set_prev l2 stop b qs b x c2 ((λ e. s.0 (sym e)), d.1.0) in
    let rest = Linked-set_next l3 stop b qs p x c3 d.0 in
    (c.0, (ground arith, (ground arith, (ground arith, (ground arith, rest)))))
Linked-pushed l stop p x (a ∷ ps) qs c d s f =
    let (e, c') = Linked-pushed l stop a x ps qs c.1.1 d.1 s.1 (f.0, f.1.1) in
    let (g, h) = Fresh-split p (a ∷ ps) qs d.0 in
    let behind = last-ne a ps g in
    let front = head-ne a stop qs ((λ k. s.0 (sym k)), (Fresh-split a ps qs d.1.0).1) in
    (e, (ground arith, (ground arith, c')))

Linked-popped :
    (l : Links) (stop p x : ℕ) (ps qs : List ℕ)
    → Linked l stop p (ps ++ (x ∷ qs))
    → Distinct (p ∷ (ps ++ (x ∷ qs)))
    → Fresh stop (ps ++ (x ∷ qs))
    → (l.next x ≡ head stop qs)
      × ((l.prev x ≡ last p ps) × Linked (popped l (last p ps) (head stop qs) x) stop p (ps ++ qs))
Linked-popped l stop p x [] [] c d s = (c.1.1.0, (c.1.0, ground arith))
Linked-popped l stop p x [] (b ∷ qs) c d s =
    let l1 = set_prev l b p in
    let l2 = set_next l1 p b in
    let l3 = set_prev l2 x 0 in
    let c1 = Linked-set_prev l stop b qs b p c.1.1.1.1 ((λ e. s.1.0 (sym e)), d.1.1.0) in
    let c2 = Linked-set_next l1 stop b qs p b c1 d.0.1 in
    let c3 = Linked-set_prev l2 stop b qs x 0 c2 ((λ e. s.0 (sym e)), d.1.0.1) in
    let rest = Linked-set_next l3 stop b qs x 0 c3 d.1.0 in
    (c.1.1.0, (c.1.0, (ground arith, (ground arith, rest))))
Linked-popped l stop p x (a ∷ ps) qs c d s =
    let (n, (v, c')) = Linked-popped l stop a x ps qs c.1.1 d.1 s.1 in
    let (g, h) = Fresh-split p (a ∷ ps) (x ∷ qs) d.0 in
    let behind = last-ne a ps g in
    let (j, k) = Fresh-split a ps (x ∷ qs) d.1.0 in
    let front = head-ne a stop qs ((λ e. s.0 (sym e)), k.1) in
    (n, (v, (ground arith, (ground arith, c'))))

-- the item in front of the first of `qs`
Linked-prev :
    (l : Links) (stop p : ℕ) (ps qs : List ℕ)
    → Linked l stop p (ps ++ qs)
    → l.prev (head stop qs) ≡ last p ps
Linked-prev l stop p [] [] c = c.1
Linked-prev l stop p [] (b ∷ qs) c = c.1.0
Linked-prev l stop p (a ∷ ps) qs c = Linked-prev l stop a ps qs c.1.1

-- Pushing a fresh item behind the last of `ps`, or behind the sentinel if there is none, puts it
-- between `ps` and `qs` in both directions.
pub push_after-Linked :
    (l : Links) (list : ℕ) (ps qs : List ℕ) (x : ℕ)
    → Holds l list (ps ++ qs)
    → Fresh x (0 ∷ (list ∷ (ps ++ qs)))
    → Returns (λ l'. Holds l' list (ps ++ (x ∷ qs))) (push_after l (last list ps) x)
unfolding push_after
push_after-Linked l list ps qs x h f =
    let (e, c) = Linked-pushed l list list x ps qs h.linked h.distinct h.distinct.0 (f.1.0, f.1) in
    let (y, z) = Fresh-split 0 ps qs h.non_null.1 in
    let item = non_null_true _ (last-ne list ps (h.non_null.0, y)) in
    let next = non_null_true _ (λ k. head-ne 0 list qs (h.non_null.0, z) (sym k)) in
    let fresh = non_null_true x f.0 in
    let (j, k) = Fresh-split x ps qs f.1.1 in
    let behind = last-ne list ps (f.1.0, j) in
    let ne : (x == last list ps) ≡ false = ground arith in
    rw (item, e, next, fresh, ne)
      (record {
        linked = c;
        distinct = Distinct-insert (list ∷ ps) qs x h.distinct f.1;
        non_null = (h.non_null.0, Fresh-append 0 ps (x ∷ qs) y ((λ k. f.0 (sym k)), z));
      })

-- Pushing a fresh item before the first of `qs`, or before the sentinel if there is none, puts it
-- between `ps` and `qs` in both directions.
pub push_before-Linked :
    (l : Links) (list : ℕ) (ps qs : List ℕ) (x : ℕ)
    → Holds l list (ps ++ qs)
    → Fresh x (0 ∷ (list ∷ (ps ++ qs)))
    → Returns (λ l'. Holds l' list (ps ++ (x ∷ qs))) (push_before l (head list qs) x)
unfolding push_before
push_before-Linked l list ps qs x h f =
    let (e, c) = Linked-pushed l list list x ps qs h.linked h.distinct h.distinct.0 (f.1.0, f.1) in
    let before = Linked-prev l list list ps qs h.linked in
    let (y, z) = Fresh-split 0 ps qs h.non_null.1 in
    let prev = non_null_true _ (last-ne list ps (h.non_null.0, y)) in
    let item = non_null_true _ (λ k. head-ne 0 list qs (h.non_null.0, z) (sym k)) in
    let fresh = non_null_true x f.0 in
    let (j, k) = Fresh-split x ps qs f.1.1 in
    let front = head-ne x list qs (f.1.0, k) in
    let ne : (x == head list qs) ≡ false = ground arith in
    rw (item, before, prev, fresh, ne)
      (record {
        linked = c;
        distinct = Distinct-insert (list ∷ ps) qs x h.distinct f.1;
        non_null = (h.non_null.0, Fresh-append 0 ps (x ∷ qs) y ((λ k. f.0 (sym k)), z));
      })

-- am_dlist_pop takes out the item that it is given, in both directions, and sets its own links to
-- NULL.
pub pop-Linked :
    (l : Links) (list : ℕ) (ps qs : List ℕ) (x : ℕ)
    → Holds l list (ps ++ (x ∷ qs))
    → Returns (λ l'. Holds l' list (ps ++ qs) × ((l'.next x ≡ 0) × (l'.prev x ≡ 0))) (pop l x)
unfolding pop
pop-Linked l list ps qs x h =
    let (n, (v, c)) = Linked-popped l list list x ps qs h.linked h.distinct h.distinct.0 in
    let (y, z) = Fresh-split 0 ps (x ∷ qs) h.non_null.1 in
    let (a, b) = Fresh-split list ps (x ∷ qs) h.distinct.0 in
    let item = non_null_true x (λ k. z.0 (sym k)) in
    let next = non_null_true _ (λ k. head-ne 0 list qs (h.non_null.0, z.1) (sym k)) in
    let prev = non_null_true _ (last-ne list ps (h.non_null.0, y)) in
    let (d, f) = Distinct-remove (list ∷ ps) qs x h.distinct in
    let front = head-ne x list qs (f.0, (Fresh-split x ps qs f.1).1) in
    let ne : (head list qs == x) ≡ false = ground arith in
    let here : (x == x) ≡ true = ground arith in
    rw (item, n, next, v, prev, ne)
      (
        record { linked = c; distinct = d; non_null = (h.non_null.0, Fresh-append 0 ps qs y z.1) },
        (rw here refl, rw here refl),
      )
