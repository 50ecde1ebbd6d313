-- ===== src/Slist/Chain.antt =====
-- Which items a list holds: the chain of `next` fields from the sentinel back to it.
use amast.Common.{ℕ, ◌≡◌, refl, sym, ◌∙◌, true, ◌≢◌, arith, List, [], ◌∷◌, ◌++◌, update, ◌<◌}
use amast.Slist.{Links, Slist, init, non_null}

-- `a` is none of the items
abbrev pub Fresh : ℕ → List ℕ → Type 0
Fresh a [] = Unit {0}
Fresh a (x ∷ xs) = (a ≢ x) × Fresh a xs

abbrev pub Distinct : List ℕ → Type 0
Distinct [] = Unit {0}
Distinct (x ∷ xs) = Fresh x xs × Distinct xs

-- From `p` the links lead through `xs` to `stop`.
abbrev pub Chain : Links → ℕ → ℕ → List ℕ → Type 0
Chain next stop p [] = next p ≡ stop
Chain next stop p (x ∷ xs) = (next p ≡ x) × Chain next stop x xs

-- the last of `p` and `xs`
abbrev pub last : ℕ → List ℕ → ℕ
last p [] = p
last p (x ∷ xs) = last x xs

-- The list `l` holds the items `xs`, front first.
pub record Holds (next : Links) (l : Slist) (xs : List ℕ) : Type 0 where
  pub chain : Chain next l.sentinel l.sentinel xs
  pub distinct : Distinct (l.sentinel ∷ xs)
  pub non_null : Fresh 0 (l.sentinel ∷ xs)
  pub back : l.back ≡ last l.sentinel xs

pub Fresh-append : (a : ℕ) (xs ys : List ℕ) → Fresh a xs → Fresh a ys → Fresh a (xs ++ ys)
Fresh-append a [] ys f g = g
Fresh-append a (x ∷ xs) ys f g = (f.0, Fresh-append a xs ys f.1 g)

pub Fresh-split : (a : ℕ) (xs ys : List ℕ) → Fresh a (xs ++ ys) → Fresh a xs × Fresh a ys
Fresh-split a [] ys f = (tt, f)
Fresh-split a (x ∷ xs) ys f = let (g, h) = Fresh-split a xs ys f.1 in ((f.0, g), h)

pub Distinct-insert :
    (ps qs : List ℕ) (x : ℕ) → Distinct (ps ++ qs) → Fresh x (ps ++ qs) → Distinct (ps ++ (x ∷ qs))
Distinct-insert [] qs x d f = (f, d)
Distinct-insert (a ∷ ps) qs x d f =
    let (g, h) = Fresh-split a ps qs d.0 in
    (Fresh-append a ps (x ∷ qs) g (λ e. f.0 (sym e), h), Distinct-insert ps qs x d.1 f.1)

-- Without one item, what was fresh and distinct still is.
pub Fresh-remove : (a : ℕ) (ps qs : List ℕ) (x : ℕ) → Fresh a (ps ++ (x ∷ qs)) → Fresh a (ps ++ qs)
Fresh-remove a ps qs x f = let (g, h) = Fresh-split a ps (x ∷ qs) f in Fresh-append a ps qs g h.1

pub Distinct-remove :
    (ps qs : List ℕ) (x : ℕ) → Distinct (ps ++ (x ∷ qs)) → Distinct (ps ++ qs) × Fresh x (ps ++ qs)
Distinct-remove [] qs x d = (d.1, d.0)
Distinct-remove (a ∷ ps) qs x d =
    let (g, h) = Fresh-split a ps (x ∷ qs) d.0 in
    let (d', f) = Distinct-remove ps qs x d.1 in
    ((Fresh-append a ps qs g h.1, d'), ((λ e. h.0 (sym e)), f))

-- The last item is one of them.
pub last-ne : {a : ℕ} (p : ℕ) (xs : List ℕ) → Fresh a (p ∷ xs) → last p xs ≢ a
last-ne p [] f = λ e. f.0 (sym e)
last-ne p (x ∷ xs) f = last-ne x xs f.1

pub last-append : (p : ℕ) (xs ys : List ℕ) → last p (xs ++ ys) ≡ last (last p xs) ys
last-append p [] ys = refl
last-append p (x ∷ xs) ys = last-append x xs ys

-- A write to a link that the chain does not use leaves the chain.
pub Chain-update :
    (next : Links) (stop p : ℕ) (xs : List ℕ) (a v : ℕ)
    → Chain next stop p xs
    → Fresh a (p ∷ xs)
    → Chain (update next a v) stop p xs
Chain-update next stop p [] a v c f = ground arith
Chain-update next stop p (x ∷ xs) a v c f = (ground arith, Chain-update next stop x xs a v c.1 f.1)

-- Two chains, one behind the other.
pub Chain-append :
    (next : Links) (mid stop p : ℕ) (xs ys : List ℕ)
    → Chain next mid p xs
    → Chain next stop mid ys
    → Chain next stop p (xs ++ (mid ∷ ys))
Chain-append next mid stop p [] ys c d = (c, d)
Chain-append next mid stop p (x ∷ xs) ys c d = (c.0, Chain-append next mid stop x xs ys c.1 d)

-- The link of the last item leads to the stop.
pub Chain-last :
    (next : Links) (stop p : ℕ) (xs : List ℕ) → Chain next stop p xs → next (last p xs) ≡ stop
Chain-last next stop p [] c = c
Chain-last next stop p (x ∷ xs) c = Chain-last next stop x xs c.1

-- After am_slist_init the list holds nothing.
pub init-Holds :
    (next : Links) (l : Slist) → 0 < l.sentinel → let (next', l') = init next l in Holds next' l' []
unfolding init
init-Holds next l h = ground arith

-- What the link of the last of `ps` leads to is none but an item behind it or the stop.
pub Chain-next-ne :
    (next : Links) (a stop p : ℕ) (ps qs : List ℕ)
    → Chain next stop p (ps ++ qs)
    → Fresh a (ps ++ qs)
    → a ≢ stop
    → next (last p ps) ≢ a
Chain-next-ne next a stop p [] [] c f ne = λ e. ne (sym e ∙ c)
Chain-next-ne next a stop p [] (b ∷ qs) c f ne = λ e. f.0 (sym e ∙ c.0)
Chain-next-ne next a stop p (x ∷ ps) qs c f ne = Chain-next-ne next a stop x ps qs c.1 f.1 ne

pub non_null_true : (p : ℕ) → p ≢ 0 → non_null p ≡ true
non_null_true p ne = ground arith

-- A write to the link of an address outside the list leaves the list.
pub Holds-update :
    (next : Links) (l : Slist) (xs : List ℕ) (a v : ℕ)
    → Holds next l xs
    → Fresh a (l.sentinel ∷ xs)
    → Holds (update next a v) l xs
Holds-update next l xs a v h f = record {
  chain = Chain-update next l.sentinel l.sentinel xs a v h.chain f;
  distinct = h.distinct;
  non_null = h.non_null;
  back = h.back;
}
