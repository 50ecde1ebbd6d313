-- ===== src/Slist/Append.antt =====
-- am_slist_append: one list moves behind another.
use amast.Common.{
  ℕ, ◌≡◌, sym, ◌≢◌, ◌∙◌, arith, List, [], ◌∷◌, ◌++◌, ◌==◌, update, append-nil, true, false,
}
use amast.Slist.{Links, Slist, append}
use amast.Slist.Chain.{
  Fresh, Distinct, Chain, last, Holds, Fresh-append, last-ne, last-append, Chain-update,
  Chain-append,
}

-- no address of the first list is one of the second
abbrev pub Apart : List ℕ → List ℕ → Type 0
Apart [] ys = Unit {0}
Apart (x ∷ xs) ys = Fresh x ys × Apart xs ys

Apart-last : (p : ℕ) (xs ys : List ℕ) → Apart (p ∷ xs) ys → Fresh (last p xs) ys
Apart-last p [] ys a = a.0
Apart-last p (x ∷ xs) ys a = Apart-last x xs ys a.1

pub last-Fresh : (xs : List ℕ) (q : ℕ) (ys : List ℕ) → Apart xs (q ∷ ys) → Fresh (last q ys) xs
last-Fresh [] q ys a = tt
last-Fresh (x ∷ xs) q ys a = (last-ne q ys a.0, last-Fresh xs q ys a.1)

head-Fresh : (xs : List ℕ) (q : ℕ) (ys : List ℕ) → Apart xs (q ∷ ys) → Fresh q xs
head-Fresh [] q ys a = tt
head-Fresh (x ∷ xs) q ys a = ((λ e. a.0.0 (sym e)), head-Fresh xs q ys a.1)

Apart-tail : (xs : List ℕ) (q : ℕ) (ys : List ℕ) → Apart xs (q ∷ ys) → Apart xs ys
Apart-tail [] q ys a = tt
Apart-tail (x ∷ xs) q ys a = (a.0.1, Apart-tail xs q ys a.1)

Distinct-append : (xs ys : List ℕ) → Distinct xs → Distinct ys → Apart xs ys → Distinct (xs ++ ys)
Distinct-append [] ys d e a = e
Distinct-append (x ∷ xs) ys d e a = (Fresh-append x xs ys d.0 a.0, Distinct-append xs ys d.1 e a.1)

-- Writing the last link makes the chain end elsewhere.
retarget :
    (next : Links) (stop v p : ℕ) (xs : List ℕ)
    → Chain next stop p xs
    → Distinct (p ∷ xs)
    → Chain (update next (last p xs) v) v p xs
retarget next stop v p [] c d = ground arith
retarget next stop v p (x ∷ xs) c d =
    let ne : last x xs ≢ p = last-ne x xs d.0 in (ground arith, retarget next stop v x xs c.1 d.1)

-- the links that am_slist_append leaves
abbrev joined : Links → Slist → Slist → Links
joined next to from =
    update (update (update next to.back (next from.sentinel)) from.back to.sentinel) from.sentinel
      from.sentinel

module _ (next : Links) (to from : Slist) (xs : List ℕ) (y : ℕ) (ys : List ℕ) (h : Holds next to xs)
    (g : Holds next from (y ∷ ys)) (a : Apart (to.sentinel ∷ xs) (from.sentinel ∷ (y ∷ ys))) where
  -- the links in terms of the items
  abbrev relinked : Links
  relinked =
      update (update (update next (last to.sentinel xs) y) (last y ys) to.sentinel) from.sentinel
        from.sentinel

  joined-eq : joined next to from ≡ relinked
  joined-eq = λ i.
      update (update (update next (h.back i) (g.chain.0 i)) (g.back i) to.sentinel) from.sentinel
        from.sentinel

  relinked-Chain : Chain relinked to.sentinel to.sentinel (xs ++ (y ∷ ys))
  relinked-Chain =
      let s = to.sentinel in
      let f = from.sentinel in
      let own = head-Fresh (s ∷ xs) f (y ∷ ys) a in
      let far = Apart-tail (s ∷ xs) f (y ∷ ys) a in
      let front = retarget next s y s xs h.chain h.distinct in
      let front' = Chain-update _ y s xs (last y ys) s front (last-Fresh (s ∷ xs) y ys far) in
      let rest = Chain-update next f y ys (last s xs) y g.chain.1 (Apart-last s xs (y ∷ ys) far) in
      let rest' = retarget _ f s y ys rest g.distinct.1 in
      Chain-append relinked y s s xs ys (Chain-update _ y s xs f f front' own)
        (Chain-update _ s y ys f f rest' g.distinct.0)

  joined-to : Holds (joined next to from) (record to { back = from.back }) (xs ++ (y ∷ ys))
  joined-to =
      let s = to.sentinel in
      let far = Apart-tail (s ∷ xs) from.sentinel (y ∷ ys) a in
      record {
        chain = rw joined-eq relinked-Chain;
        distinct = Distinct-append (s ∷ xs) (y ∷ ys) h.distinct g.distinct.1 far;
        non_null = Fresh-append 0 (s ∷ xs) (y ∷ ys) h.non_null g.non_null.1;
        back = g.back ∙ sym (last-append s xs (y ∷ ys));
      }

  joined-from : Holds (joined next to from) (record from { back = from.sentinel }) []
  joined-from = let ne = g.non_null.0 in ground arith

-- am_slist_append of two lists that share no address moves all items of the second, in order,
-- behind those of the first, and leaves the second empty.
pub append-Holds :
    (next : Links) (to from : Slist) (xs ys : List ℕ)
    → Holds next to xs
    → Holds next from ys
    → Apart (to.sentinel ∷ xs) (from.sentinel ∷ ys)
    → let (next', to', from') = append next to from in
      Holds next' to' (xs ++ ys) × Holds next' from' []
unfolding append
append-Holds next to from xs [] h g a =
    let empty : (next from.sentinel == from.sentinel) ≡ true = ground arith in
    rw (empty, append-nil) (h, g)
append-Holds next to from xs (y ∷ ys) h g a =
    let full : (next from.sentinel == from.sentinel) ≡ false = ground arith in
    rw full (joined-to next to from xs y ys h g a, joined-from next to from xs y ys h g a)
