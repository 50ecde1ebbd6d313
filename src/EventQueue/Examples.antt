-- ===== src/EventQueue/Examples.antt =====
-- A queue of three slots that holds the static events 5 and 6, round the end of its array.
use amast.Common.{
  ◌≡◌, refl, arith, [], ◌∷◌, ◌==◌, if◌then◌else◌, true, false, inl, ok, Returns, ◌>>=◌,
}
use amast.Event.{World}
use amast.Event.Examples.{world, pool-IsPool, event_64-IsOwned, event_64-IsPooled}
use amast.EventQueue.{EventQueue, Policy, plain_policy, contents, push, pop_front, flush}
use amast.EventQueue.Valid.{IsValid}
use amast.EventQueue.Push.{IsPushable, Pushed, push-Pushed}
use amast.EventQueue.Margin.{Answered, push-Answered}
use amast.EventQueue.Pop.{Popped, pop_front-Popped}
use amast.EventQueue.Flush.{free_list, flush_lem}

abbrev queue : EventQueue
queue = record {
  rd = 2;
  wr = 1;
  nfree = 1;
  nfree_min = 0;
  capacity = 3;
  events = λ i. if i == 2 then 5 else 6;
  alloc = true;
  full = false;
  init_called = true;
}

queue-IsValid : IsValid queue
queue-IsValid = record {
  ready = refl;
  read_in = omega arith;
  free_in = omega arith;
  write_at = refl;
  full_when = refl;
  least = omega arith;
}

contents-queue : contents queue ≡ 5 ∷ 6 ∷ []
contents-queue = refl

event_7-IsPushable : IsPushable world 7
event_7-IsPushable = record { non_null = omega arith; header = inl refl }

abbrev with_margin : Policy
with_margin = plain_policy false 1

push-Pushed_example : Returns (Pushed world queue 7 true) (push world queue 7 (plain_policy true 0))
push-Pushed_example =
    push-Pushed world queue 7 (plain_policy true 0) queue-IsValid event_7-IsPushable (omega arith)

-- One slot is free: with margin 1 event 64 is refused, and its only holder is gone.
push-Answered_example :
    Returns (Answered world queue 64 with_margin (72 ∷ [])) (push world queue 64 with_margin)
push-Answered_example =
    push-Answered world queue 64 with_margin (72 ∷ []) queue-IsValid refl (omega arith)
      event_64-IsPooled (omega arith) pool-IsPool event_64-IsOwned (omega arith) (omega arith)

pop_front-Popped_example : Returns (Popped queue) (pop_front queue)
pop_front-Popped_example = pop_front-Popped queue queue-IsValid

flush_lem_example :
    (left : EventQueue) × IsValid left
    × (contents left ≡ [])
    × ((w : World) → flush w queue ≡ (free_list true w (5 ∷ 6 ∷ []) >>= λ w'. ok (2, w', left)))
flush_lem_example = flush_lem queue queue-IsValid (omega arith)
