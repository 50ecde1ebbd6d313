-- ===== src/Slist/Examples.antt =====
-- The theorems on singly linked lists at a list of two items and a list of one.
use amast.Common.{arith, [], ◌∷◌, update}
use amast.Slist.{Links, Slist, append}
use amast.Slist.Chain.{Holds}
use amast.Slist.Append.{append-Holds}

-- items 1 and 2 behind the sentinel 100, and item 3 behind the sentinel 200
abbrev links : Links
links = update (update (update (update (update (λ _. 0) 100 1) 1 2) 2 100) 200 3) 3 200

abbrev pair : Slist
pair = record { sentinel = 100; back = 2 }

abbrev single : Slist
single = record { sentinel = 200; back = 3 }

pair-Holds : Holds links pair (1 ∷ 2 ∷ [])
pair-Holds = ground arith

single-Holds : Holds links single (3 ∷ [])
single-Holds = ground arith

append-Holds_example :
    let (next', to', from') = append links pair single in
    Holds next' to' (1 ∷ 2 ∷ 3 ∷ []) × Holds next' from' []
append-Holds_example =
    append-Holds links pair single (1 ∷ 2 ∷ []) (3 ∷ []) pair-Holds single-Holds (ground arith)
