-- ===== src/EventQueue/Pop.antt =====
-- am_event_queue_pop_front.
use amast.Common.{
  ℕ, ◌+◌, ◌-◌, ◌%◌, ◌<◌, ◌≡◌, ◌⊎◌, inl, inr, refl, ap, ◌∙◌, arith, true, false, Bool-cases, ◌==◌,
  ok, Returns, check, [], ◌∷◌, mod-at-most,
}
use amast.EventQueue.{EventQueue, nbusy, contents, is_empty, pop_front}
use amast.EventQueue.Ring.{ring, index, ring-pop}
use amast.EventQueue.Valid.{IsValid, is_empty_iff}

-- the queue without its first event
abbrev pub popped : EventQueue → EventQueue
popped q = record q { rd = (q.rd + 1) % q.capacity; full = false; nfree = q.nfree + 1 }

pub popped-IsValid : (q : EventQueue) → IsValid q → 0 < nbusy q → IsValid (popped q)
popped-IsValid q v h = ground (arith, mod-at-most (q.rd + 1) q.capacity)

pub contents-popped :
    (q : EventQueue) → IsValid q → 0 < nbusy q → contents q ≡ q.events q.rd ∷ contents (popped q)
contents-popped q v h =
    let rd : index q.capacity q.rd 1 ≡ (q.rd + 1) % q.capacity =
      ground (arith, mod-at-most (q.rd + 1) q.capacity, v.read_in) in
    let n : nbusy q - 1 ≡ nbusy (popped q) = omega arith in
    ring-pop q.events q.capacity q.rd (nbusy q) v.read_in (omega arith) h
    ∙ (λ i. q.events q.rd ∷ ring q.events q.capacity (rd i) (n i))

pub pop_front_some :
    (q : EventQueue) → IsValid q → 0 < nbusy q → pop_front q ≡ ok (q.events q.rd, popped q)
unfolding pop_front
pop_front_some q v h =
    let some_busy : is_empty q ≡ false = is_empty_iff q v ∙ ground arith in
    rw (ap check v.ready, some_busy)

pub pop_front_none : (q : EventQueue) → IsValid q → nbusy q ≡ 0 → pop_front q ≡ ok (0, q)
unfolding pop_front
pop_front_none q v h =
    let none_busy : is_empty q ≡ true = is_empty_iff q v ∙ ground arith in
    rw (ap check v.ready, none_busy)

-- What am_event_queue_pop_front gives: NULL from an empty queue, which stays as it was, and from
-- any other the first event, with the rest left in order.
pub record Popped (q : EventQueue) (r : ℕ × EventQueue) : Type 0 where
  pub valid : IsValid r.1
  pub queue :
      ((contents q ≡ []) × (r.0 ≡ 0) × (r.1 ≡ q))
      ⊎ ((contents q ≡ r.0 ∷ contents r.1) × (nbusy q ≡ nbusy r.1 + 1))

-- On a valid queue am_event_queue_pop_front fails no assertion, and takes out the first event.
pub pop_front-Popped : (q : EventQueue) → IsValid q → Returns (Popped q) (pop_front q)
pop_front-Popped q v = elim (Bool-cases (nbusy q == 0)) [
  | inl e ↦
      let zero_busy : nbusy q ≡ 0 = ground arith in
      rw (pop_front_none q v zero_busy)
        (record { valid = v; queue = inl (ground arith, refl, refl) })
  | inr e ↦
      let busy : 0 < nbusy q = ground arith in
      rw (pop_front_some q v busy) (record {
        valid = popped-IsValid q v busy;
        queue = inr (contents-popped q v busy, omega arith);
      })
]
