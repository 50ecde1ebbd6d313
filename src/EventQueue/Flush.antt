-- ===== src/EventQueue/Flush.antt =====
-- am_event_queue_flush and am_event_queue_pop_front_with_cb.
use amast.Common.{
  ℕ, zero, suc, ◌+◌, ◌≤◌, ◌<◌, ◌≡◌, inl, inr, arith, Bool, true, Bool-cases, leb, ◌==◌, Checked, ok,
  List, [], ◌∷◌, ◌>>=◌, >>=-assoc, length,
}
use amast.Slist.{non_null}
use amast.Slist.Chain.{Fresh}
use amast.Event.{World, free_unsafe}
use amast.EventQueue.{EventQueue, nbusy, contents, flush, flush_loop}
use amast.EventQueue.Valid.{IsValid, length-contents}
use amast.EventQueue.Pop.{popped, popped-IsValid, contents-popped, pop_front_some, pop_front_none}

-- freeing the events of a list, one after the other
abbrev pub free_list : Bool → World → List ℕ → Checked World
free_list alloc w [] = ok w
free_list alloc w (e ∷ es) = free_unsafe alloc w e >>= λ w'. free_list alloc w' es

-- What is left of a queue when it is flushed, and the result in terms of the events that it held.
record Flushed (q : EventQueue) (cnt fuel : ℕ) : Type 0 where
  left : EventQueue
  valid : IsValid left
  empty : contents left ≡ []
  result :
      (w : World)
      → flush_loop fuel w q cnt
        ≡ (free_list q.alloc w (contents q) >>= λ w'. ok (cnt + nbusy q, w', left))

flush_loop-Flushed :
    (fuel cnt : ℕ) (q : EventQueue)
    → IsValid q
    → Fresh 0 (contents q)
    → nbusy q < fuel
    → cnt + nbusy q ≤ q.capacity
    → Flushed q cnt fuel
unfolding flush_loop
flush_loop-Flushed zero cnt q v f h le = elim h [ ]
flush_loop-Flushed (suc fuel) cnt q v f h le = elim (Bool-cases (nbusy q == 0)) [
  | inl e ↦
      let none_busy : nbusy q ≡ 0 = ground arith in
      let empty : contents q ≡ [] = ground arith in
      let count : cnt + nbusy q ≡ cnt = omega arith in
      record {
        left = q;
        valid = v;
        empty = empty;
        result = λ w. rw (pop_front_none q v none_busy, empty, count);
      }
  | inr e ↦
      let busy : 0 < nbusy q = ground arith in
      let queue = contents-popped q v busy in
      let f' : Fresh 0 (q.events q.rd ∷ contents (popped q)) = rw queue at f in
      let rest =
        flush_loop-Flushed fuel (cnt + 1) (popped q) (popped-IsValid q v busy) f'.1 (omega arith)
          (omega arith) in
      let item : non_null (q.events q.rd) ≡ true = ground (arith, f'.0) in
      let few : leb (cnt + 1) q.capacity ≡ true = ground arith in
      let count : cnt + nbusy q ≡ cnt + 1 + nbusy (popped q) = omega arith in
      record {
        left = rest.left;
        valid = rest.valid;
        empty = rest.empty;
        result = λ w.
            rw (pop_front_some q v busy, item, few, queue, count)
              (>>=-assoc (free_unsafe q.alloc w (q.events q.rd)) _ _ _ rest.result);
      }
]

-- am_event_queue_flush of a valid queue that holds no NULL ends, whatever it holds. It frees the
-- queued events one after the other, front first, and fails an assertion only if one of these
-- fails. It returns how many events it has freed, and leaves a valid queue that is empty.
pub flush_lem :
    (q : EventQueue)
    → IsValid q
    → Fresh 0 (contents q)
    → (left : EventQueue) × IsValid left
      × (contents left ≡ [])
      × ((w : World)
          → flush w q
            ≡ (free_list q.alloc w (contents q) >>= λ w'. ok (length (contents q), w', left)))
unfolding flush
flush_lem q v f =
    let done = flush_loop-Flushed (q.capacity + 1) 0 q v f (omega arith) (omega arith) in
    let count : 0 + nbusy q ≡ length (contents q) = omega (arith, length-contents q v) in
    (done.left, done.valid, done.empty, λ w. rw (← count) (done.result w))
