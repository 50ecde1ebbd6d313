-- ===== src/Ao/Refuse.antt =====
-- What is posted to an active object with a margin: it is delivered, or given up.
use amast.Common.{
  ℕ, ◌<◌, ◌≤◌, ◌≡◌, ◌≢◌, ◌⊎◌, inl, inr, refl, ap, fun_ext, arith, Bool, true, ltb, Bool-cases, List,
  check, Returns, Returns-value, update, update-cases,
}
use amast.Slist.{non_null}
use amast.Onesize.Valid.{IsPool, IsOwned}
use amast.Event.{World, evt_user, ref_counter_max}
use amast.Event.Ref.{IsPooled}
use amast.Event.Release.{pool_of, Dropped}
use amast.EventQueue.{Policy, plain_policy, push}
use amast.EventQueue.Margin.{push-Refused}
use amast.EventAsync.{AsyncState}
use amast.Ao.{Core, set_queue, event_handler, post_x}
use amast.Ao.Consistent.{IsConsistent}
use amast.Ao.Deliver.{IsWired, Delivered, post_x-Delivered, post_x-handled}

-- A pooled event of a user that can have one more holder and be given up: its valid pool has given
-- out its block.
pub record IsGivable (w : World) (event : ℕ) (fs : List ℕ) : Type 0 where
  pub non_null : event ≢ 0
  pub pooled : IsPooled (w.event event)
  pub counted : (w.event event).ref_counter < ref_counter_max
  pub user : evt_user ≤ (w.event event).id
  pub pool : IsPool w.links (w.alloc.pools (pool_of (w.event event))) fs
  pub owned : IsOwned (w.alloc.pools (pool_of (w.event event))) fs event

module _ {U : Type 0} (task_notify : ℕ → U → U) where
  set_same : (core : Core U) (p : ℕ) → set_queue core p (core.objects p).event_queue ≡ core
  set_same core p =
      let same : update core.objects p (core.objects p) ≡ core.objects = fun_ext λ k.
        update-cases (λ ao. ao ≡ core.objects k) core.objects p (core.objects p) k
          (λ e. ap core.objects e) (λ e. refl) in
      ap (λ objects. record core { objects = objects }) same

  event_handler-Refused :
      (w : World) (core : Core U) (fn i event : ℕ) (policy : Policy) (fs : List ℕ)
      → IsConsistent core
      → i < 64
      → core.me.aos i ≢ 0
      → (core.objects (core.me.aos i)).running ≡ true
      → (core.objects (core.me.aos i)).event_queue.alloc ≡ true
      → IsGivable w event fs
      → 0 < policy.margin
      → policy.margin < (core.objects (core.me.aos i)).event_queue.capacity
      → (core.objects (core.me.aos i)).event_queue.nfree ≤ policy.margin
      → Returns
          (λ (posted, w', core'). (core' ≡ core) × Dropped w event fs w')
          (event_handler task_notify fn (core.me.aos i) event policy w core)
  unfolding event_handler
  event_handler-Refused w core fn i event policy fs c i_lt ne running alloc g some lt full =
      let p = core.me.aos i in
      let q = (core.objects p).event_queue in
      let some_ao : non_null p ≡ true = ground arith in
      let some_event : non_null event ≡ true = ground (arith, g.non_null) in
      let ((rc, w', q'), e, refused) = Returns-value _ (push w q event policy) (
        push-Refused w q event policy fs (c.queue i i_lt ne) alloc g.non_null g.pooled g.pool
          g.owned some lt full) in
      rw (some_ao, some_event, ap check running, e, refused.rc, refused.queue)
        (set_same core p, refused.world)

  -- What posting leaves: a delivery, if there are more free slots than the margin, and else the
  -- active objects as they were, with one holder of the event less.
  abbrev pub Posted :
      (w : World) (core : Core U) (i event margin : ℕ) (lifo : Bool) (fs : List ℕ)
      → Bool × World × Core U
      → Type 0
  Posted w core i event margin lifo fs r =
      let nfree = (core.objects (core.me.aos i)).event_queue.nfree in
      ((margin < nfree) × Delivered w core i event lifo r)
      ⊎ ((nfree ≤ margin) × (r.2 ≡ core) × Dropped w event fs r.1)

  -- A pooled event of a user, whose block its valid pool has given out and whose counter is below
  -- the maximum, posted with a margin of at least one, and below the capacity of the queue, to an
  -- active object that is initialised, registered and running, and can free events: no assertion
  -- fails, and the subscriptions are as before. With more free slots than the margin the event is
  -- delivered to it. Otherwise nothing of the active objects changes, but the event has one holder
  -- less: with one holder or none its block is back in its pool.
  pub post_x-Posted :
      (lifo : Bool) (w : World) (async : AsyncState) (core : Core U) (i event margin : ℕ)
      (fs : List ℕ)
      → IsConsistent core
      → IsWired async core
      → i < 64
      → core.me.aos i ≢ 0
      → (core.objects (core.me.aos i)).init_called ≡ true
      → (core.objects (core.me.aos i)).running ≡ true
      → (core.objects (core.me.aos i)).event_queue.alloc ≡ true
      → IsGivable w event fs
      → 0 < margin
      → margin < (core.objects (core.me.aos i)).event_queue.capacity
      → Returns
          (λ (posted, (w', async', core')).
            (async' ≡ async) × Posted w core i event margin lifo fs (posted, w', core'))
          (post_x task_notify lifo (w, async, core) (core.me.aos i) event margin)
  post_x-Posted lifo w async core i event margin fs c wired i_lt ne started running alloc g some
        lt =
      elim (Bool-cases (ltb margin (core.objects (core.me.aos i)).event_queue.nfree)) [
        | inl open_slot ↦
            let room : margin < (core.objects (core.me.aos i)).event_queue.nfree = ground arith in
            let (r, e, same_delivered) =
              Returns-value _
                (post_x task_notify lifo (w, async, core) (core.me.aos i) event margin)
                (post_x-Delivered task_notify lifo w async core i event margin c wired
                  (record { prio_in = i_lt; present = ne; running = running; room = room }) started
                  (record {
                    non_null = g.non_null;
                    header = inr (g.pooled.dynamic, g.pooled.intact, g.counted);
                  })
                  g.user) in
            rw e (same_delivered.0, inl (room, same_delivered.1))
        | inr none_open ↦
            let full : (core.objects (core.me.aos i)).event_queue.nfree ≤ margin = ground arith in
            let (r, e, refused) =
              Returns-value _
                (event_handler task_notify (async.handlers i).fn (core.me.aos i) event
                  (plain_policy lifo margin) w core)
                (event_handler-Refused w core (async.handlers i).fn i event
                  (plain_policy lifo margin) fs c i_lt ne running alloc g some lt full) in
            rw
              (
                post_x-handled task_notify lifo w async core i event margin c wired i_lt ne started
                    running g.non_null g.user,
                e,
              )
              (refl, inr (full, refused.0, refused.1))
      ]
