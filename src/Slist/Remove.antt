-- ===== src/Slist/Remove.antt =====
-- am_slist_pop_after, am_slist_pop_front and am_slist_iterator_pop.
use mathlib.Core.Path.{subst}
use amast.Common.{
  ℕ, ◌≡◌, refl, sym, ◌≢◌, arith, List, [], ◌∷◌, ◌++◌, ◌==◌, if◌then◌else◌, update, ok, Returns,
}
use amast.Slist.{Links, Slist, pop_after, pop_front, iterator_pop}
use amast.Slist.Chain.{
  Distinct, Chain, last, Holds, Fresh-split, Fresh-remove, Distinct-remove, last-ne, Chain-update,
  Chain-next-ne, Holds-update, non_null_true,
}

-- the links after the item behind `q` is taken out
abbrev pub unlinked : Links → ℕ → Links
unlinked next q = update next q (next (next q))

unlinked-Chain :
    (next : Links) (stop p x : ℕ) (ps qs : List ℕ)
    → Chain next stop p (ps ++ (x ∷ qs))
    → Distinct (p ∷ (ps ++ (x ∷ qs)))
    → (next (last p ps) ≡ x)
      × Chain (unlinked next (last p ps)) stop p (ps ++ qs)
      × Chain next stop x qs
unlinked-Chain next stop p x [] [] c d = (c.0, ground arith, c.1)
unlinked-Chain next stop p x [] (b ∷ qs) c d =
    (c.0, (ground arith, Chain-update next stop b qs p (next (next p)) c.1.1 d.0.1), c.1)
unlinked-Chain next stop p x (a ∷ ps) qs c d =
    let (e, c', r) = unlinked-Chain next stop a x ps qs c.1 d.1 in
    let (g, h) = Fresh-split p (a ∷ ps) (x ∷ qs) d.0 in
    let ne : last a ps ≢ p = last-ne a ps g in (e, (ground arith, c'), r)

-- Where the last item of the shorter list is.
last-remove :
    (p x : ℕ) (ps qs : List ℕ)
    → Distinct (p ∷ (ps ++ (x ∷ qs)))
    → last p (ps ++ qs)
      ≡ (if last p (ps ++ (x ∷ qs)) == x then last p ps else last p (ps ++ (x ∷ qs)))
last-remove p x [] [] d = ground arith
last-remove p x [] (b ∷ qs) d = let ne = last-ne b qs d.1.0 in ground arith
last-remove p x (a ∷ ps) qs d = last-remove a x ps qs d.1

module _ (next : Links) (l : Slist) (ps qs : List ℕ) (x : ℕ)
    (h : Holds next l (ps ++ (x ∷ qs))) where
  -- the list structure after `x` is taken out
  abbrev shorter : Slist
  shorter = record l { back = if l.back == x then last l.sentinel ps else l.back }

  shorter-Holds : Holds (unlinked next (last l.sentinel ps)) shorter (ps ++ qs)
  shorter-Holds =
      let s = l.sentinel in
      record {
        chain = (unlinked-Chain next s s x ps qs h.chain h.distinct).1;
        distinct = (Distinct-remove (s ∷ ps) qs x h.distinct).0;
        non_null = Fresh-remove 0 (s ∷ ps) qs x h.non_null;
        back = rw h.back (sym (last-remove s x ps qs h.distinct));
      }

  pop_after-eq :
      pop_after next l (last l.sentinel ps) ≡ ok (x, unlinked next (last l.sentinel ps), shorter)
  unfolding pop_after
  pop_after-eq =
      let s = l.sentinel in
      let (e, c, r) = unlinked-Chain next s s x ps qs h.chain h.distinct in
      let (y, z) = Fresh-split 0 ps (x ∷ qs) h.non_null.1 in
      let (_, f) = Fresh-split s ps (x ∷ qs) h.distinct.0 in
      let item = non_null_true _ (last-ne s ps (h.non_null.0, y)) in
      let link = non_null_true _ (Chain-next-ne next 0 s x [] qs r z.1 h.non_null.0) in
      let first = non_null_true x (λ k. z.0 (sym k)) in ground arith

  -- am_slist_pop_after takes out and returns the item behind the last of `ps`.
  pub pop_after-Holds :
      Returns
        (λ (p, next', l').
          (p ≡ x)
          × Holds next' l' (ps ++ qs)
          × (l'.sentinel ≡ l.sentinel)
          × (next' ≡ unlinked next (last l.sentinel ps)))
        (pop_after next l (last l.sentinel ps))
  pop_after-Holds = rw pop_after-eq (refl, shorter-Holds, refl, refl)

  -- am_slist_iterator_pop takes out the item that the iterator is at, sets its link to NULL, and
  -- goes back to the item before it.
  pub iterator_pop-Holds :
      Returns
        (λ (p, next', it).
          (p ≡ x)
          × Holds next' it.list (ps ++ qs)
          × (it.list.sentinel ≡ l.sentinel)
          × (it.cur ≡ last l.sentinel ps)
          × (next' ≡ update (update next (last l.sentinel ps) (next x)) x 0))
        (iterator_pop next (record { list = l; cur = x; prev = last l.sentinel ps }))
  unfolding iterator_pop
  iterator_pop-Holds =
      let s = l.sentinel in
      let (e, c, r) = unlinked-Chain next s s x ps qs h.chain h.distinct in
      let (y, z) = Fresh-split 0 ps (x ∷ qs) h.non_null.1 in
      let item = non_null_true _ (last-ne s ps (h.non_null.0, y)) in
      let first = non_null_true x (λ k. z.0 (sym k)) in
      let out =
        subst (λ t. Holds (update next (last s ps) (next t)) shorter (ps ++ qs)) e shorter-Holds in
      rw (item, first)
        (
          refl,
          Holds-update _ shorter (ps ++ qs) x 0 out (Distinct-remove (s ∷ ps) qs x h.distinct).1,
          refl,
          refl,
          refl,
        )

-- On an empty list am_slist_pop_front returns NULL and changes nothing.
pub pop_front-nil :
    (next : Links) (l : Slist) → Holds next l [] → pop_front next l ≡ ok (0, next, l)
unfolding pop_front pop_after
pop_front-nil next l h = ground arith

-- am_slist_pop_front takes out and returns the first item.
pub pop_front-Holds :
    (next : Links) (l : Slist) (xs : List ℕ) (x : ℕ)
    → Holds next l (x ∷ xs)
    → Returns
        (λ (p, next', l').
          (p ≡ x)
          × Holds next' l' xs
          × (l'.sentinel ≡ l.sentinel)
          × (next' ≡ unlinked next l.sentinel))
        (pop_front next l)
unfolding pop_front
pop_front-Holds next l xs x h = pop_after-Holds next l [] xs x h
