-- ===== src/EventQueue/Push.antt =====
-- am_event_queue_push: what is queued, what is refused, and the reference that the queue holds.
use amast.Common.{
  ℕ, ◌+◌, ◌-◌, ◌≤◌, ◌<◌, ◌≡◌, ◌≢◌, ◌⊎◌, refl, ap, arith, Bool, true, false, ltb, leb, not, ◌||◌,
  ◌==◌, if◌then◌else◌, Checked, ok, Returns, List, [], ◌∷◌, ◌++◌, update, ◌∙◌, ◌>>=◌, ◌>>◌, check,
  fault, mod-at-most,
}
use amast.Slist.{non_null}
use amast.Event.{World, is_static, is_intact, set_event, free_unsafe, ref_counter_max}
use amast.EventQueue.{
  EventQueue, Policy, Rc, rc_err, rc_ok, rc_queue_was_empty, nbusy, contents, placed, counted, hold,
  push,
}
use amast.EventQueue.Ring.{ring, before, ring-back, ring-front}
use amast.EventQueue.Valid.{IsValid}

-- what the queue holds after a push
abbrev pub queued : List ℕ → ℕ → Bool → List ℕ
queued xs event lifo = if lifo then event ∷ xs else xs ++ (event ∷ [])

back-IsValid :
    (q : EventQueue) (event : ℕ)
    → IsValid q
    → 0 < q.nfree
    → IsValid (counted (placed q event false))
back-IsValid q event v h = ground (arith, mod-at-most (q.wr + 1) q.capacity)

front-IsValid :
    (q : EventQueue) (event : ℕ) → IsValid q → 0 < q.nfree → IsValid (counted (placed q event true))
front-IsValid q event v h = ground arith

contents-back :
    (q : EventQueue) (event : ℕ)
    → IsValid q
    → 0 < q.nfree
    → contents (counted (placed q event false)) ≡ contents q ++ (event ∷ [])
contents-back q event v h =
    let n : q.capacity - (q.nfree - 1) ≡ nbusy q + 1 = omega (arith, v.free_in) in
    (λ i. ring (update q.events (v.write_at i) event) q.capacity q.rd (n i))
    ∙ ring-back q.events q.capacity q.rd (nbusy q) v.read_in event (omega (arith, v.read_in))

contents-front :
    (q : EventQueue) (event : ℕ)
    → IsValid q
    → 0 < q.nfree
    → contents (counted (placed q event true)) ≡ event ∷ contents q
contents-front q event v h =
    let w = before q.capacity q.rd in
    let n : q.capacity - (q.nfree - 1) ≡ nbusy q + 1 = omega (arith, v.free_in) in
    (λ i. ring (update q.events w event) q.capacity w (n i))
    ∙ ring-front q.events q.capacity q.rd (nbusy q) event v.read_in (omega (arith, v.read_in))

-- An event that can be queued: not NULL, and static, or intact with a counter below the maximum.
pub record IsPushable (w : World) (event : ℕ) : Type 0 where
  pub non_null : event ≢ 0
  pub header :
      (is_static (w.event event) ≡ true)
      ⊎ ((is_static (w.event event) ≡ false)
          × (is_intact (w.event event) ≡ true)
          × ((w.event event).ref_counter < ref_counter_max))

-- the memory with one more holder of the event
abbrev pub held : World → ℕ → World
held w p =
    let e = w.event p in
    if is_static e then w else set_event w p (record e { ref_counter = e.ref_counter + 1 })

hold-held : (w : World) (p : ℕ) → IsPushable w p → hold w p ≡ ok (held w p)
unfolding hold
hold-held w p h = ground (arith, h.header)

-- What an accepted push leaves.
pub record Pushed (w : World) (q : EventQueue) (event : ℕ) (lifo : Bool)
    (r : Rc × World × EventQueue) : Type 0 where
  pub valid : IsValid r.2
  pub capacity : r.2.capacity ≡ q.capacity
  pub queue : contents r.2 ≡ queued (contents q) event lifo
  pub rc : r.0 ≡ (if nbusy q == 0 then rc_queue_was_empty else rc_ok)
  pub world : r.1 ≡ held w event

-- On a valid queue with more free slots than the margin, a push fails no assertion. The event
-- comes last, or first in LIFO mode, before and behind what was queued; a pooled event gets one
-- more holder; and the return code says whether the queue was empty.
pub push-Pushed :
    (w : World) (q : EventQueue) (event : ℕ) (policy : Policy)
    → IsValid q
    → IsPushable w event
    → policy.margin < q.nfree
    → Returns (Pushed w q event policy.lifo) (push w q event policy)
unfolding push
push-Pushed w q event policy v p h =
    let item : non_null event ≡ true = ground (arith, p.non_null) in
    let margin : ltb policy.margin q.capacity ≡ true = ground (arith, v.free_in) in
    let intact : (is_static (w.event event) || is_intact (w.event event)) ≡ true =
      ground (arith, p.header) in
    let room : leb q.nfree policy.margin ≡ false = ground arith in
    let some_free : ltb 0 q.nfree ≡ true = ground arith in
    let open_slot : not q.full ≡ true = ground (arith, v.full_when) in
    let empty : (q.capacity == q.nfree) ≡ (nbusy q == 0) = ground (arith, v.free_in) in
    rw
      (
        ap check v.ready,
        item,
        margin,
        intact,
        room,
        some_free,
        open_slot,
        hold-held w event p,
        empty,
      )
      (pushed policy.lifo)
  where
    pushed :
        (lifo : Bool)
        → Pushed w q event lifo (
          if nbusy q == 0 then rc_queue_was_empty else rc_ok,
          held w event,
          counted (placed q event lifo),
        )
    pushed true = record {
      valid = front-IsValid q event v (omega arith);
      capacity = refl;
      queue = contents-front q event v (omega arith);
      rc = refl;
      world = refl;
    }
    pushed false = record {
      valid = back-IsValid q event v (omega arith);
      capacity = refl;
      queue = contents-back q event v (omega arith);
      rc = refl;
      world = refl;
    }

-- The branch of a push that is refused.
pub push_refused :
    (w : World) (q : EventQueue) (event : ℕ) (policy : Policy)
    → IsValid q
    → event ≢ 0
    → (is_static (w.event event) || is_intact (w.event event)) ≡ true
    → q.nfree ≤ policy.margin
    → policy.margin < q.capacity
    → push w q event policy ≡ (
        if ltb 0 policy.margin
        then (free_unsafe q.alloc w event >>= λ w'. ok (rc_err, w', q))
        else fault)
unfolding push
push_refused w q event policy v ne s full lt =
    let item : non_null event ≡ true = ground arith in
    let margin : ltb policy.margin q.capacity ≡ true = ground arith in
    let none_left : leb q.nfree policy.margin ≡ true = ground arith in
    rw (ap check v.ready, item, margin, s, none_left)
      (refused (free_unsafe q.alloc w event) policy.margin)
  where
    refused :
        (m : Checked World) (n : ℕ)
        → ◌>>=◌ {B = Rc × World × EventQueue} m (λ w'. check (ltb 0 n) >> ok (rc_err, w', q))
          ≡ (if ltb 0 n then (m >>= λ w'. ok (rc_err, w', q)) else fault)
    refused m n = ground arith
