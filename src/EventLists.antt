-- ===== src/EventLists.antt =====
-- struct am_event_subscribe_list of libs/event/event_common.h, and what event_async.c and
-- event_sync.c both do to a user's array of such lists: byte `li` of list `si` is `lists si li`.
use amast.Common.{
  ℕ, zero, suc, ◌+◌, ◌*◌, ◌/◌, ◌%◌, ◌<◌, ◌≡◌, refl, ap, sym, ◌∙◌, arith, Bool, true, false, not,
  ◌&&◌, ◌||◌, ltb, ◌==◌, ==_iff, if◌then◌else◌, update, has_bit, set_bit, clear_bit,
  has_bit-set_bit, has_bit-clear_bit, set_bit-lt, clear_bit-lt, List, [], ◌∷◌,
}
use amast.Bit.Change.{at_byte}

abbrev pub Lists : Type 0
Lists = ℕ → ℕ → ℕ

abbrev set_byte : Lists → (si li byte : ℕ) → Lists
set_byte lists si li byte = update lists si (update (lists si) li byte)

-- the bit of a handler in list `si`, set and cleared
abbrev pub add_handler : Lists → (handler_id si : ℕ) → Lists
add_handler lists handler_id si =
    let li = handler_id / 8 in set_byte lists si li (set_bit (lists si li) (handler_id % 8))

abbrev pub take_handler : Lists → (handler_id si : ℕ) → Lists
take_handler lists handler_id si =
    let li = handler_id / 8 in set_byte lists si li (clear_bit (lists si li) (handler_id % 8))

-- the loop that clears the bit of a handler in the first `n` lists
unfoldable pub take_from_all : ℕ → Lists → (handler_id : ℕ) → Lists
take_from_all zero lists handler_id = lists
take_from_all (suc n) lists handler_id =
    let before = take_from_all n lists handler_id in take_handler before handler_id n

-- The handler is on list `si`.
abbrev pub on_list : Lists → (handler_id si : ℕ) → Bool
on_list lists handler_id si = has_bit (lists si (handler_id / 8)) (handler_id % 8)

-- The lists hold bytes.
abbrev pub AreBytes : Lists → Type 0
AreBytes lists = (si li : ℕ) → lists si li < 256

-- The handlers below `n` on a list, the highest first.
unfoldable pub subscribers : ℕ → (ℕ → ℕ) → List ℕ
subscribers zero sub = []
subscribers (suc n) sub =
    let below = subscribers n sub in if has_bit (sub (n / 8)) (n % 8) then n ∷ below else below

-- the handlers of byte `i`, by their bits
abbrev pub shifted : ℕ → List ℕ → List ℕ
shifted i [] = []
shifted i (x ∷ xs) = (8 * i + x) ∷ shifted i xs

set_byte-AreBytes :
    (lists : Lists) (si li byte : ℕ)
    → AreBytes lists
    → byte < 256
    → AreBytes (set_byte lists si li byte)
set_byte-AreBytes lists si li byte v lt i l = ground (arith, v i l)

-- The lists after the byte of one handler was changed in one of them.
on_list-set_byte :
    (lists : Lists) (h si mask h' si' : ℕ) (f : Bool → Bool → Bool)
    → ((j : ℕ) → j < 8 → has_bit mask j ≡ f (h % 8 == j) (has_bit (lists si (h / 8)) j))
    → ((x : Bool) → f false x ≡ x)
    → on_list (set_byte lists si (h / 8) mask) h' si'
      ≡ f (si == si' && h == h') (on_list lists h' si')
on_list-set_byte lists h si mask h' si' f row same = go (si == si') refl
  where
    go :
        (here : Bool)
        → (si == si') ≡ here
        → has_bit ((if here then update (lists si) (h / 8) mask else lists si') (h' / 8)) (h' % 8)
          ≡ f (here && h == h') (on_list lists h' si')
    go true e =
        let eq : si ≡ si' = (==_iff si si').0 e in
        at_byte (lists si) h mask h' f row same ∙ ap (λ i. f (h == h') (on_list lists h' i)) eq
    go false e = sym (same _)

pub add_handler_lem :
    (lists : Lists) (h si : ℕ)
    → AreBytes lists
    → AreBytes (add_handler lists h si)
      × ((h' si' : ℕ)
          → on_list (add_handler lists h si) h' si'
            ≡ ((si == si' && h == h') || on_list lists h' si'))
add_handler_lem lists h si v =
    let byte = lists si (h / 8) in
    let bit_lt : h % 8 < 8 = omega arith in
    let mask = set_bit byte (h % 8) in
    (
      set_byte-AreBytes lists si (h / 8) mask v (set_bit-lt byte (h % 8) (v si (h / 8)) bit_lt),
      λ h' si'.
          on_list-set_byte lists h si mask h' si' ◌||◌
            (λ j lt. has_bit-set_bit byte (h % 8) j (v si (h / 8)) bit_lt lt) λ x. refl,
    )

pub take_handler_lem :
    (lists : Lists) (h si : ℕ)
    → AreBytes lists
    → AreBytes (take_handler lists h si)
      × ((h' si' : ℕ)
          → on_list (take_handler lists h si) h' si'
            ≡ (not (si == si' && h == h') && on_list lists h' si'))
take_handler_lem lists h si v =
    let byte = lists si (h / 8) in
    let bit_lt : h % 8 < 8 = omega arith in
    let mask = clear_bit byte (h % 8) in
    (
      set_byte-AreBytes lists si (h / 8) mask v (clear_bit-lt byte (h % 8) (v si (h / 8)) bit_lt),
      λ h' si'.
          on_list-set_byte lists h si mask h' si' (λ x y. not x && y)
            (λ j lt. has_bit-clear_bit byte (h % 8) j (v si (h / 8)) bit_lt lt) λ x. refl,
    )

one_more :
    (n si : ℕ) (here x : Bool)
    → (not (n == si && here) && (not (ltb si n && here) && x)) ≡ (not (ltb si (suc n) && here) && x)
one_more n si here x = ground arith

pub take_from_all_lem :
    (n : ℕ) (lists : Lists) (h : ℕ)
    → AreBytes lists
    → AreBytes (take_from_all n lists h)
      × ((h' si : ℕ)
          → on_list (take_from_all n lists h) h' si
            ≡ (not (ltb si n && h == h') && on_list lists h' si))
unfolding take_from_all
take_from_all_lem zero lists h v = (v, λ h' si. ground arith)
take_from_all_lem (suc n) lists h v =
    let before = take_from_all n lists h in
    let (valid, rest) = take_from_all_lem n lists h v in
    let (valid', last) = take_handler_lem before h n valid in
    (
      valid',
      λ h' si.
          last h' si
          ∙ ap (λ x. not (n == si && h == h') && x) (rest h' si)
          ∙ one_more n si (h == h') (on_list lists h' si),
    )
