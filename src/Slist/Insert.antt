-- ===== src/Slist/Insert.antt =====
-- am_slist_push_after, am_slist_push_front and am_slist_push_back.
use mathlib.Core.Path.{subst}
use amast.Common.{
  ℕ, ◌≡◌, refl, sym, ◌≢◌, arith, List, [], ◌∷◌, ◌++◌, ◌==◌, if◌then◌else◌, update, append-nil,
  Returns,
}
use amast.Slist.{Links, Slist, push_after, push_front, push_back}
use amast.Slist.Chain.{
  Fresh, Distinct, Chain, last, Holds, Fresh-append, Fresh-split, Distinct-insert, last-ne,
  Chain-update, Chain-next-ne, non_null_true,
}

-- the links after `x` is put behind `q`
abbrev pub linked : Links → ℕ → ℕ → Links
linked next q x = update (update next x (next q)) q x

linked-front :
    (next : Links) (stop q x : ℕ) (qs : List ℕ)
    → Chain next stop q qs
    → Distinct (q ∷ qs)
    → Fresh x (q ∷ qs)
    → Chain (linked next q x) stop x qs
linked-front next stop q x [] c d f = ground arith
linked-front next stop q x (b ∷ qs) c d f = (
  ground arith,
  Chain-update _ stop b qs q x (Chain-update next stop b qs x (next q) c.1 f.1) d.0,
)

linked-Chain :
    (next : Links) (stop p x : ℕ) (ps qs : List ℕ)
    → Chain next stop p (ps ++ qs)
    → Distinct (p ∷ (ps ++ qs))
    → Fresh x (p ∷ (ps ++ qs))
    → Chain (linked next (last p ps) x) stop p (ps ++ (x ∷ qs))
linked-Chain next stop p x [] qs c d f = (ground arith, linked-front next stop p x qs c d f)
linked-Chain next stop p x (a ∷ ps) qs c d f =
    let (g, h) = Fresh-split p (a ∷ ps) qs d.0 in
    let ne : last a ps ≢ p = last-ne a ps g in
    (ground arith, linked-Chain next stop a x ps qs c.1 d.1 f.1)

-- Where the last item of the longer list is.
last-insert :
    (p x : ℕ) (ps qs : List ℕ)
    → Distinct (p ∷ (ps ++ qs))
    → last p (ps ++ (x ∷ qs)) ≡ (if last p (ps ++ qs) == last p ps then x else last p (ps ++ qs))
last-insert p x [] [] d = ground arith
last-insert p x [] (b ∷ qs) d = let ne = last-ne b qs d.0 in ground arith
last-insert p x (a ∷ ps) qs d = last-insert a x ps qs d.1

-- Pushing a fresh item behind the last of `ps` puts it between `ps` and `qs`, and changes no other
-- links than those of these two.
pub push_after-Holds :
    (next : Links) (l : Slist) (ps qs : List ℕ) (x : ℕ)
    → Holds next l (ps ++ qs)
    → Fresh x (0 ∷ (l.sentinel ∷ (ps ++ qs)))
    → Returns
        (λ (next', l').
          Holds next' l' (ps ++ (x ∷ qs))
          × (l'.sentinel ≡ l.sentinel)
          × (next' ≡ linked next (last l.sentinel ps) x))
        (push_after next l (last l.sentinel ps) x)
unfolding push_after
push_after-Holds next l ps qs x h f =
    let s = l.sentinel in
    let z = Fresh-split 0 ps qs h.non_null.1 in
    let item = non_null_true _ (last-ne s ps (h.non_null.0, z.0)) in
    let link = non_null_true _ (Chain-next-ne next 0 s s ps qs h.chain h.non_null.1 h.non_null.0) in
    let new = non_null_true x f.0 in
    rw (item, link, new)
      (
        record {
          chain = linked-Chain next s s x ps qs h.chain h.distinct f.1;
          distinct = Distinct-insert (s ∷ ps) qs x h.distinct f.1;
          non_null = (h.non_null.0, Fresh-append 0 ps (x ∷ qs) z.0 ((λ e. f.0 (sym e)), z.1));
          back = rw h.back (sym (last-insert s x ps qs h.distinct));
        },
        refl,
        refl,
      )

-- am_slist_push_front puts a fresh item in front of the list.
pub push_front-Holds :
    (next : Links) (l : Slist) (xs : List ℕ) (x : ℕ)
    → Holds next l xs
    → Fresh x (0 ∷ (l.sentinel ∷ xs))
    → Returns
        (λ (next', l').
          Holds next' l' (x ∷ xs) × (l'.sentinel ≡ l.sentinel) × (next' ≡ linked next l.sentinel x))
        (push_front next l x)
unfolding push_front
push_front-Holds next l xs x h f = push_after-Holds next l [] xs x h f

-- am_slist_push_back puts a fresh item behind the list.
pub push_back-Holds :
    (next : Links) (l : Slist) (xs : List ℕ) (x : ℕ)
    → Holds next l xs
    → Fresh x (0 ∷ (l.sentinel ∷ xs))
    → Returns
        (λ (next', l').
          Holds next' l' (xs ++ (x ∷ []))
          × (l'.sentinel ≡ l.sentinel)
          × (next' ≡ linked next (last l.sentinel xs) x))
        (push_back next l x)
unfolding push_back
push_back-Holds next l xs x h f =
    subst
      (λ b.
        Returns
          (λ (next', l').
            Holds next' l' (xs ++ (x ∷ []))
            × (l'.sentinel ≡ l.sentinel)
            × (next' ≡ linked next (last l.sentinel xs) x))
          (push_after next l b x))
      (sym h.back) (push_after-Holds next l xs [] x (rw append-nil h) (rw append-nil f))
