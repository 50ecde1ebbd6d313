-- ===== src/Dlist/Examples.antt =====
-- A list with its sentinel at 8 that holds the items 1 and 2.
use amast.Common.{◌≡◌, arith, [], ◌∷◌, update, Returns}
use amast.Dlist.{Links, push_after, pop}
use amast.Dlist.Ring.{Holds}
use amast.Dlist.Change.{push_after-Linked, pop-Linked}

abbrev links : Links
links = record {
  next = update (update (update (λ _. 0) 8 1) 1 2) 2 8;
  prev = update (update (update (λ _. 0) 8 2) 2 1) 1 8;
}

links-Holds : Holds links 8 (1 ∷ 2 ∷ [])
links-Holds = record { linked = ground arith; distinct = ground arith; non_null = ground arith }

push_after-Linked_example : Returns (λ l'. Holds l' 8 (1 ∷ 5 ∷ 2 ∷ [])) (push_after links 1 5)
push_after-Linked_example = push_after-Linked links 8 (1 ∷ []) (2 ∷ []) 5 links-Holds (ground arith)

pop-Linked_example :
    Returns (λ l'. Holds l' 8 (2 ∷ []) × ((l'.next 1 ≡ 0) × (l'.prev 1 ≡ 0))) (pop links 1)
pop-Linked_example = pop-Linked links 8 [] (2 ∷ []) 1 links-Holds
