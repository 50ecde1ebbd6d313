-- ===== src/Ao/Port.antt =====
-- libs/ao/cooperative/port.c: the port in which all active objects share one task. The task's
-- identifier, am_task_init_wait and the user's callbacks are parameters; the function of an active
-- object may do anything to the whole system.
use amast.Common.{
  ℕ, zero, suc, ◌+◌, ◌-◌, Bool, true, false, ltb, ◌==◌, if◌then◌else◌, Checked, ok, fault, check,
  ◌>>=◌, ◌>>◌, update, Option, none, some,
}
use amast.Slist.{non_null}
use amast.Bit.{u64_is_empty, u64_msb, u64_clear}
use amast.Event.{World}
use amast.EventQueue.{
  EventQueue, Rc, rc_err, rc_ok, rc_queue_was_empty, is_empty, pop_front_with_cb,
}
use amast.EventQueue
use amast.EventAsync.{AsyncState, register_with_id, unregister}
use amast.EventAsync
use amast.Ao.{Ao, AoState, Core, Prio, System, prio_invalid, prio_is_valid, set_ao, set_queue}

-- the address of am_ao_event_handler_unsafe
abbrev pub handler_address : ℕ
handler_address = 1

abbrev pub evt_empty : ℕ
evt_empty = 0

abbrev pub is_rc_ok : Rc → Bool
is_rc_ok rc_err = false
is_rc_ok rc_ok = true
is_rc_ok rc_queue_was_empty = false

module _ {U : Type 0} where
  -- am_ao_global_init_
  abbrev pub global_init_port : Core U → Core U
  global_init_port core = record core { ready_aos = record { bytes = 0; bits = λ _. 0 } }

  -- am_ao_global_init; `cfg` is the two flags of the configuration, if there is one.
  pub global_init :
      Core U
      → (cfg : Option (Bool × Bool)) → (has_sub : Bool) → (nsub : ℕ) → Checked (AsyncState × Core U)
  global_init core cfg has_sub nsub =
      let (on_idle, alloc) = flags cfg in
      do
        async ← EventAsync.global_init has_sub nsub alloc
        ok (
          async,
          record (global_init_port core) {
            me = record {
              aos = λ _. 0;
              aos_cnt = 0;
              on_idle = on_idle;
              running_ao_prio = prio_invalid;
              alloc = alloc;
              init_complete = false;
            };
          },
        )
    where
      -- without a configuration the platform's am_on_idle is used, and no allocator
      flags : Option (Bool × Bool) → Bool × Bool
      flags none = (true, false)
      flags (some (on_idle, alloc)) = (on_idle, alloc)

  abbrev pub set_running : Core U → Prio → Core U
  set_running core prio = record core { me = record core.me { running_ao_prio = prio } }

  abbrev pub set_last_event : Core U → (p id : ℕ) → Core U
  set_last_event core p id = set_ao core p (record (core.objects p) { last_event = id })

  -- am_ao_get_own_prio
  pub get_own_prio : Core U → Checked ℕ
  get_own_prio core = do
    check (prio_is_valid core.me.running_ao_prio)
    ok core.me.running_ao_prio.ao

module _ {U : Type 0} (own_id : U → ℕ) (init_wait on_idle : U → U)
    (user : (fn ctx event : ℕ) → System U → Checked (System U)) where
  -- am_ao_handle
  pub handle : (p event : ℕ) → System U → Checked (System U)
  handle p event (w, async, core) = do
    check (non_null p)
    check (non_null event)
    let core1 = set_last_event core p (w.event event).id
    let core2 = set_running core1 (core1.objects p).prio
    let ao = core2.objects p
    (w', async', core3) ← user ao.user_event_handler ao.ctx event (w, async, core2)
    ok (w', async', set_last_event (set_running core3 prio_invalid) p evt_empty)

  -- am_ao_handle as the callback of am_event_queue_pop_front_with_cb: the queue is part of the
  -- active object at `p`.
  pub serve_event :
      (p : ℕ)
      → World
      → EventQueue
      → AsyncState × Core U
      → (event : ℕ) → Checked (World × EventQueue × (AsyncState × Core U))
  unfolding handle
  serve_event p w q (async, core) event = do
    (w', async', core') ← handle p event (w, async, set_queue core p q)
    ok (w', (core'.objects p).event_queue, (async', core'))

  -- one round of am_ao_run_all in which the active object at `p` has an event
  unfoldable pub serve : (p : ℕ) → System U → Checked (Bool × System U)
  unfolding serve_event
  serve p (w, async, core) = do
    (rc, w', q, (async', core')) ←
        pop_front_with_cb (serve_event p) w (core.objects p).event_queue (async, core)
    check (is_rc_ok rc)
    ok (true, (w', async', set_queue core' p q))

  -- and one in which none is ready
  abbrev pub idle : System U → Bool × System U
  idle (w, async, core) = (
    false,
    (w, async, if core.me.on_idle then record core { rest = on_idle core.rest } else core),
  )

  -- The loop of am_ao_run_all, on fuel: a round that dispatches nothing clears a bit.
  unfoldable pub run_loop : ℕ → System U → Checked (Bool × System U)
  unfolding serve
  run_loop zero sys = fault
  run_loop (suc fuel) (w, async, core) =
      let msb = u64_msb core.ready_aos in
      let p = core.me.aos msb in
      let ao = core.objects p in
      let skip = do
        ready ← u64_clear core.ready_aos ao.prio.ao
        run_loop fuel (w, async, record core { ready_aos = ready })
      in let run = do
        check (non_null p)
        check (ao.prio.ao == msb)
        check ao.event_queue.init_called
        if is_empty ao.event_queue then skip else serve p (w, async, core)
        in if u64_is_empty core.ready_aos then ok (idle (w, async, core)) else run

  -- what am_ao_run_all does first: the first call waits for the other tasks
  abbrev pub after_init : Core U → Core U
  after_init core = record core {
    me = record core.me { init_complete = true };
    rest = if core.me.init_complete then core.rest else init_wait core.rest;
  }

  unfoldable pub run_all : System U → Checked (Bool × System U)
  unfolding run_loop
  run_all (w, async, core) = run_loop 65 (w, async, after_init core)

  -- am_ao_start; the stack is not used by this port, and `queue` is none for NULL.
  unfoldable pub start :
      System U
      → (p : ℕ) → (prio : Prio) → (queue : Option (ℕ → ℕ)) → (queue_size name init_event : ℕ)
      → Checked (System U)
  start (w, async, core) p prio none queue_size name init_event = fault
  start (w, async, core) p prio (some queue) queue_size name init_event = do
    check (non_null p)
    check (core.objects p).init_called
    check (prio_is_valid prio)
    check (ltb 0 queue_size)
    q ← EventQueue.init queue queue_size core.me.alloc
    check (0 == core.me.aos prio.ao)
    let ao : Ao = record (core.objects p) {
      event_queue = q;
      prio = prio;
      name = name;
      task_id = own_id core.rest;
      running = true;
    }
    let me : AoState = record core.me {
      aos = update core.me.aos prio.ao p;
      aos_cnt = core.me.aos_cnt + 1;
      running_ao_prio = prio;
    }
    let started : Core U = set_ao (record core { me = me }) p ao
    async' ← register_with_id async handler_address p prio.ao
    let now : System U = (w, async', started)
    (w', async2, core') ←
        if non_null ao.user_init_handler
        then user ao.user_init_handler ao.ctx init_event now
        else ok now
    ok (w', async2, set_running core' prio_invalid)

  unfoldable pub stop : System U → (p : ℕ) → Checked (System U)
  stop (w, async, core) p = do
    let ao = core.objects p
    check (non_null p)
    check (prio_is_valid ao.prio)
    check (own_id core.rest == ao.task_id)
    check (ltb 0 core.me.aos_cnt)
    async1 ← EventAsync.unsubscribe_all async ao.prio.ao
    (cnt, w1, flushed) ← EventQueue.flush w ao.event_queue
    q ← EventQueue.deinit flushed
    ready ← u64_clear core.ready_aos ao.prio.ao
    let stopped : Ao = record ao { event_queue = q; init_called = false; running = false }
    let me : AoState = record core.me {
      aos = update core.me.aos ao.prio.ao 0;
      aos_cnt = core.me.aos_cnt - 1;
    }
    async2 ← unregister async1 ao.prio.ao
    ok (w1, async2, set_ao (record core { me = me; ready_aos = ready }) p stopped)
