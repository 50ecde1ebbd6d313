-- ===== src/EventQueue/Margin.antt =====
-- What am_event_queue_push answers with a margin: it queues the event, or gives it up.
use amast.Common.{
  ℕ, ◌≤◌, ◌<◌, ◌≡◌, ◌≢◌, ◌⊎◌, inl, inr, refl, arith, Bool-cases, true, ltb, ◌||◌, List, Returns,
  Returns-value,
}
use amast.Onesize.Valid.{IsPool, IsOwned}
use amast.Event.{World, is_static, is_intact, free_unsafe, ref_counter_max}
use amast.Event.Ref.{IsPooled}
use amast.Event.Release.{pool_of, Dropped, free_unsafe-Dropped}
use amast.EventQueue.{EventQueue, Policy, Rc, rc_err, push}
use amast.EventQueue.Valid.{IsValid}
use amast.EventQueue.Push.{IsPushable, Pushed, push-Pushed, push_refused}

-- What giving up an event leaves: the queue as it was, and one holder of the event less.
pub record Refused (w : World) (q : EventQueue) (event : ℕ) (fs : List ℕ)
    (r : Rc × World × EventQueue) : Type 0 where
  pub rc : r.0 ≡ rc_err
  pub queue : r.2 ≡ q
  pub world : Dropped w event fs r.1

abbrev pub Answered :
    (w : World) (q : EventQueue) (event : ℕ) (policy : Policy) (fs : List ℕ)
    → Rc × World × EventQueue
    → Type 0
Answered w q event policy fs r =
    ((policy.margin < q.nfree) × Pushed w q event policy.lifo r)
    ⊎ ((q.nfree ≤ policy.margin) × Refused w q event fs r)

pub push-Refused :
    (w : World) (q : EventQueue) (event : ℕ) (policy : Policy) (fs : List ℕ)
    → IsValid q
    → q.alloc ≡ true
    → event ≢ 0
    → IsPooled (w.event event)
    → IsPool w.links (w.alloc.pools (pool_of (w.event event))) fs
    → IsOwned (w.alloc.pools (pool_of (w.event event))) fs event
    → 0 < policy.margin
    → policy.margin < q.capacity
    → q.nfree ≤ policy.margin
    → Returns (Refused w q event fs) (push w q event policy)
push-Refused w q event policy fs v alloc ne d pool owned some lt full =
    let known : (is_static (w.event event) || is_intact (w.event event)) ≡ true =
      ground (arith, d.intact) in
    let error : ltb 0 policy.margin ≡ true = ground arith in
    let (w', e, dropped) =
      Returns-value _ (free_unsafe true w event) (free_unsafe-Dropped w event fs d pool owned) in
    rw (push_refused w q event policy v ne known full lt, error, alloc, e)
      (record { rc = refl; queue = refl; world = dropped })

-- A push of a pooled event, whose block its valid pool has given out and whose counter is below
-- the maximum, on a valid queue that can free events, with a margin of at least one and below the
-- capacity: it fails no assertion. With more free slots than the margin the event is queued and
-- has one holder more. Otherwise the error comes back and the queue is as before, but the event has
-- one holder less: with one holder or none its block is back in its pool.
pub push-Answered :
    (w : World) (q : EventQueue) (event : ℕ) (policy : Policy) (fs : List ℕ)
    → IsValid q
    → q.alloc ≡ true
    → event ≢ 0
    → IsPooled (w.event event)
    → (w.event event).ref_counter < ref_counter_max
    → IsPool w.links (w.alloc.pools (pool_of (w.event event))) fs
    → IsOwned (w.alloc.pools (pool_of (w.event event))) fs event
    → 0 < policy.margin
    → policy.margin < q.capacity
    → Returns (Answered w q event policy fs) (push w q event policy)
push-Answered w q event policy fs v alloc ne d below pool owned some lt =
    elim (Bool-cases (ltb policy.margin q.nfree)) [
      | inl open_slot ↦
          let room : policy.margin < q.nfree = ground arith in
          let pushable : IsPushable w event = record {
            non_null = ne;
            header = inr (d.dynamic, d.intact, below);
          } in
          let (r, e, pushed) =
            Returns-value _ (push w q event policy)
              (push-Pushed w q event policy v pushable room) in
          rw e (inl (room, pushed))
      | inr none_open ↦
          let full : q.nfree ≤ policy.margin = ground arith in
          let (r, e, refused) =
            Returns-value _ (push w q event policy)
              (push-Refused w q event policy fs v alloc ne d pool owned some lt full) in
          rw e (inr (full, refused))
    ]
