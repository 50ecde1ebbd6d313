-- ===== src/Ao/Deliver.antt =====
-- am_ao_event_handler_unsafe, and what is posted to an active object with it.
use amast.Common.{
  ℕ, ◌<◌, ◌≤◌, ◌≡◌, ◌≢◌, refl, ap, subst, ◌∙◌, arith, Bool, true, false, ◌||◌, ◌==◌, ltb, leb,
  if◌then◌else◌, Checked, ok, check, Returns, Returns-value, ◌>>=◌, Bool-cases, ==_iff, inl, inr,
}
use amast.Slist.{non_null}
use amast.Bit.{BitU64, u64_has}
use amast.Event.{World, evt_user}
use amast.EventQueue.{EventQueue, Policy, plain_policy, Rc, nbusy, contents, push}
use amast.EventQueue.Push.{IsPushable, Pushed, push-Pushed, queued, held}
use amast.EventLists.{AreBytes}
use amast.EventAsync.{AsyncState, handlers_num_max, post}
use amast.Ao.{Core, set_queue, is_first, notify, event_handler, post_x}
use amast.Ao.Consistent.{IsConsistent, set_queue-IsConsistent, notify-sets}

-- What a delivery to the active object of priority `i` leaves.
pub record Delivered {U : Type 0} (w : World) (core : Core U) (i event : ℕ) (lifo : Bool)
    (r : Bool × World × Core U) : Type 0 where
  pub accepted : r.0 ≡ true
  pub world : r.1 ≡ held w event
  pub consistent : IsConsistent r.2
  pub me : r.2.me ≡ core.me
  pub queue :
      contents (r.2.objects (core.me.aos i)).event_queue
      ≡ queued (contents (core.objects (core.me.aos i)).event_queue) event lifo
  pub others : (p : ℕ) → core.me.aos i ≢ p → r.2.objects p ≡ core.objects p
  pub ready : u64_has r.2.ready_aos i ≡ true

-- An active object that can be given an event under a margin.
pub record IsOpen {U : Type 0} (core : Core U) (i margin : ℕ) : Type 0 where
  pub prio_in : i < 64
  pub present : core.me.aos i ≢ 0
  pub running : (core.objects (core.me.aos i)).running ≡ true
  pub room : margin < (core.objects (core.me.aos i)).event_queue.nfree

-- The handlers of the table are those of the active objects.
pub record IsWired {U : Type 0} (async : AsyncState) (core : Core U) : Type 0 where
  pub lists : AreBytes async.sub
  pub wired :
      (i : ℕ)
      → i < 64
      → core.me.aos i ≢ 0
      → ((async.handlers i).ctx ≡ core.me.aos i) × ((async.handlers i).fn ≢ 0)
  pub only : (i : ℕ) → i < 64 → (async.handlers i).fn ≢ 0 → core.me.aos i ≢ 0

-- A run that is such a delivery, with what it leaves written out.
pub record Outcome {U : Type 0} (w : World) (core : Core U) (i event : ℕ) (lifo : Bool)
    (m : Checked (Bool × World × Core U)) : Type 0 where
  pub new_queue : EventQueue
  pub new_ready : BitU64
  pub new_rest : U
  pub run :
      m
      ≡ ok (
        true,
        held w event,
        record (set_queue core (core.me.aos i) new_queue) {
          ready_aos = new_ready;
          rest = new_rest;
        },
      )
  pub consistent :
      IsConsistent (record (set_queue core (core.me.aos i) new_queue) {
        ready_aos = new_ready;
        rest = new_rest;
      })
  pub queue :
      contents new_queue ≡ queued (contents (core.objects (core.me.aos i)).event_queue) event lifo
  pub set : u64_has new_ready i ≡ true

module _ {U : Type 0} (task_notify : ℕ → U → U) where
  finish : (core : Core U) (p : ℕ) → Rc × World × EventQueue → Checked (Bool × World × Core U)
  finish core p (rc, w, q) = do
    let queued = set_queue core p q
    core' ← if is_first rc then notify task_notify queued p else ok queued
    ok (true, w, core')

  known_bit :
      (core : Core U) (i : ℕ) (ready : BitU64) (n : ℕ)
      → IsConsistent core
      → i < 64
      → core.me.aos i ≢ 0
      → n < 64
      → u64_has ready n ≡ ((i == n) || u64_has core.ready_aos n)
      → u64_has ready n ≡ true
      → core.me.aos n ≢ 0
  known_bit core i ready n c i_lt ne lt bits h = elim (Bool-cases (i == n)) [
    | inl e ↦ subst (λ k. core.me.aos k ≢ 0) ((==_iff i n).0 e) ne
    | inr e ↦ let old : u64_has core.ready_aos n ≡ true = ground arith in c.known n lt old
  ]

  finish-Outcome :
      (w : World) (core : Core U) (i event : ℕ) (lifo : Bool) (r : Rc × World × EventQueue)
      → IsConsistent core
      → i < 64
      → core.me.aos i ≢ 0
      → Pushed w (core.objects (core.me.aos i)).event_queue event lifo r
      → Outcome w core i event lifo (finish core (core.me.aos i) r)
  unfolding finish
  finish-Outcome w core i event lifo (rc, w', q) c i_lt ne pushed =
      let p = core.me.aos i in
      let before = (core.objects p).event_queue in
      let queued_core = set_queue core p q in
      elim (Bool-cases (nbusy before == 0)) [
        | inl e ↦
            let first : is_first rc ≡ true = ap is_first pushed.rc ∙ rw e refl in
            let has_task : (queued_core.objects p).task_id ≢ 0 =
              ground (arith, c.has_task i i_lt ne) in
            let own : (queued_core.objects p).prio.ao ≡ i = ground (arith, c.own_prio i i_lt ne) in
            let (ready, run, (valid, bits)) =
              notify-sets task_notify queued_core p i c.ready has_task own i_lt in
            let set : u64_has ready i ≡ true = bits i i_lt ∙ ground arith in
            let rest = task_notify (queued_core.objects p).task_id core.rest in
            record {
              new_queue = q;
              new_ready = ready;
              new_rest = rest;
              run = rw (first, run, pushed.world) refl;
              consistent =
                  set_queue-IsConsistent core i q ready rest c i_lt ne pushed.valid valid
                    (λ n lt h. bits n lt ∙ ground arith)
                    (λ n lt h. known_bit core i ready n c i_lt ne lt (bits n lt) h) λ busy. set;
              queue = pushed.queue;
              set = set;
            }
        | inr e ↦
            let later : is_first rc ≡ false = ap is_first pushed.rc ∙ rw e refl in
            let busy : 0 < nbusy before = ground arith in
            record {
              new_queue = q;
              new_ready = core.ready_aos;
              new_rest = core.rest;
              run = rw (later, pushed.world) refl;
              consistent =
                  set_queue-IsConsistent core i q core.ready_aos core.rest c i_lt ne pushed.valid
                    c.ready (λ n lt h. h) c.known λ more. c.awake i i_lt ne busy;
              queue = pushed.queue;
              set = c.awake i i_lt ne busy;
            }
      ]

  -- The same for the whole handler, on an event that can be queued and an active object with more
  -- free slots than the margin.
  pub event_handler-Outcome :
      (w : World) (core : Core U) (fn i event : ℕ) (policy : Policy)
      → IsConsistent core
      → IsOpen core i policy.margin
      → IsPushable w event
      → Outcome w core i event policy.lifo
          (event_handler task_notify fn (core.me.aos i) event policy w core)
  unfolding event_handler finish
  event_handler-Outcome w core fn i event policy c at p =
      let some_ao : non_null (core.me.aos i) ≡ true = ground (arith, at.present) in
      let some_event : non_null event ≡ true = ground (arith, p.non_null) in
      let q = (core.objects (core.me.aos i)).event_queue in
      let (r, e, pushed) =
        Returns-value _ (push w q event policy)
          (push-Pushed w q event policy (c.queue i at.prio_in at.present) p at.room) in
      rw (some_ao, some_event, ap check at.running, e)
        (finish-Outcome w core i event policy.lifo r c at.prio_in at.present pushed)

  -- An event that can be queued, given to a registered and running active object with more free
  -- slots than the margin, is put in its queue and held once more. No assertion fails; the active
  -- object is ready to run, and nothing else of the active objects changes.
  pub event_handler-Delivered :
      (w : World) (core : Core U) (fn i event : ℕ) (policy : Policy)
      → IsConsistent core
      → IsOpen core i policy.margin
      → IsPushable w event
      → Returns
          (Delivered w core i event policy.lifo)
          (event_handler task_notify fn (core.me.aos i) event policy w core)
  event_handler-Delivered w core fn i event policy c at p =
      let o = event_handler-Outcome w core fn i event policy c at p in
      let here : (core.me.aos i == core.me.aos i) ≡ true = ground arith in
      rw o.run (record {
        accepted = refl;
        world = refl;
        consistent = o.consistent;
        me = refl;
        queue = rw here o.queue;
        others = λ p' other. ground arith;
        ready = o.set;
      })

  -- What is posted to a registered and running active object is given to its handler.
  pub post_x-handled :
      (lifo : Bool) (w : World) (async : AsyncState) (core : Core U) (i event margin : ℕ)
      → IsConsistent core
      → IsWired async core
      → i < 64
      → core.me.aos i ≢ 0
      → (core.objects (core.me.aos i)).init_called ≡ true
      → (core.objects (core.me.aos i)).running ≡ true
      → event ≢ 0
      → evt_user ≤ (w.event event).id
      → post_x task_notify lifo (w, async, core) (core.me.aos i) event margin ≡ (
          event_handler task_notify
            (async.handlers i).fn
            (core.me.aos i)
            event
            (plain_policy lifo margin)
            w
            core
          >>= λ (posted, w', core'). ok (posted, (w', async, core')))
  unfolding post_x post
  post_x-handled lifo w async core i event margin c wired i_lt ne started running some user =
      let some_ao : non_null (core.me.aos i) ≡ true = ground arith in
      let some_event : non_null event ≡ true = ground arith in
      let in_table : ltb i handlers_num_max ≡ true = ground arith in
      let user_id : leb evt_user (w.event event).id ≡ true = ground arith in
      let (ctx, fn) = wired.wired i i_lt ne in
      let some_fn : non_null (async.handlers i).fn ≡ true = ground (arith, fn) in
      let own = c.own_prio i i_lt ne in
      rw
        (
          some_ao,
          ap check started,
          ap check running,
          some_event,
          own,
          in_table,
          user_id,
          some_fn,
          ctx,
        )
        refl

  -- An event that can be queued and has a user's identifier, posted to an active object that is
  -- initialised, registered and running, and has more free slots than the margin: no assertion
  -- fails. The event comes at the end of its queue or, in LIFO mode, at the front, and has one
  -- holder more if it is pooled; the active object is ready to run; all others and the
  -- subscriptions are as before; and the result is true.
  pub post_x-Delivered :
      (lifo : Bool) (w : World) (async : AsyncState) (core : Core U) (i event margin : ℕ)
      → IsConsistent core
      → IsWired async core
      → IsOpen core i margin
      → (core.objects (core.me.aos i)).init_called ≡ true
      → IsPushable w event
      → evt_user ≤ (w.event event).id
      → Returns
          (λ (posted, (w', async', core')).
            (async' ≡ async) × Delivered w core i event lifo (posted, w', core'))
          (post_x task_notify lifo (w, async, core) (core.me.aos i) event margin)
  post_x-Delivered lifo w async core i event margin c wired at started p user =
      let (r, e, delivered) =
        Returns-value _
          (event_handler task_notify (async.handlers i).fn (core.me.aos i) event
            (plain_policy lifo margin) w core)
          (event_handler-Delivered w core (async.handlers i).fn i event (plain_policy lifo margin) c
            at p) in
      rw
        (
          post_x-handled lifo w async core i event margin c wired at.prio_in at.present started
              at.running p.non_null user,
          e,
        )
        (refl, delivered)
