-- ===== src/Ao/Life.antt =====
-- am_ao_start and am_ao_stop: how active objects come and go.
use amast.Common.{
  ℕ, ◌+◌, ◌<◌, ◌≤◌, ◌≡◌, ◌≢◌, refl, ap, sym, arith, Bool, true, false, ltb, ◌==◌, if◌then◌else◌,
  Checked, ok, check, ◌>>=◌, Bool-cases, inl, inr, some, update, update-cases, [],
}
use amast.Slist.{non_null}
use amast.Bit.{u64_has}
use amast.Event.{World}
use amast.EventQueue.{EventQueue, nbusy, contents, is_empty}
use amast.EventQueue
use amast.EventQueue.Valid as Queues
use amast.EventAsync.{AsyncState, Handler, handlers_num_max, register_with_id}
use amast.Ao.{Ao, Core, Prio, System, ao_prio_max, prio_is_valid, prio_invalid}
use amast.Ao.Port.{start, handler_address, set_running}
use amast.Ao.Consistent.{IsConsistent}
use amast.Ao.Deliver.{IsWired}

-- An active object at `p` that can be started at a priority.
pub record IsStartable {U : Type 0} (core : Core U) (p : ℕ) (prio : Prio) (queue_size : ℕ)
    : Type 0 where
  pub some_ao : p ≢ 0
  pub inited : (core.objects p).init_called ≡ true
  pub prio_in : prio.ao ≤ ao_prio_max
  pub task_in : prio.task ≤ ao_prio_max
  pub sized : 0 < queue_size
  pub vacant : core.me.aos prio.ao ≡ 0
  pub elsewhere : (i : ℕ) → i < 64 → core.me.aos i ≢ p

-- What holds of each registered active object when `ao` is put at `p`, and `p` at priority `k`.
registered-cases :
    (P : Ao → Type 0) (aos : ℕ → ℕ) (objects : ℕ → Ao) (k p : ℕ) (ao : Ao) (i : ℕ)
    → aos i ≢ p
    → (k ≡ i → P ao)
    → (aos i ≢ 0 → P (objects (aos i)))
    → update aos k p i ≢ 0
    → P (update objects p ao (update aos k p i))
registered-cases P aos objects k p ao i elsewhere here old =
    update-cases (λ q. q ≢ 0 → P (update objects p ao q)) aos k p i
      (λ e ne. update-cases P objects p ao p (λ same. here e) λ other. absurd (other refl))
      λ e ne.
        update-cases P objects p ao (aos i) (λ same. absurd (elsewhere (sym same))) λ other. old ne

-- the table with the handler of the active object at `p`
abbrev pub with_handler : AsyncState → (p prio : ℕ) → AsyncState
with_handler async p prio = record async {
  handlers = update async.handlers prio (record { fn = handler_address; ctx = p });
}

module _ {U : Type 0} where
  abbrev fresh_queue : Core U → (ℕ → ℕ) → ℕ → EventQueue
  fresh_queue core queue size = record {
    rd = 0;
    wr = 0;
    nfree = size;
    nfree_min = size;
    capacity = size;
    events = queue;
    alloc = core.me.alloc;
    full = false;
    init_called = true;
  }

  -- the active object and the state that the user's init handler sees
  abbrev pub started_ao :
      (own_id : U → ℕ) → Core U → (p : ℕ) → Prio → (ℕ → ℕ) → (size name : ℕ) → Ao
  started_ao own_id core p prio queue size name = record (core.objects p) {
    event_queue = fresh_queue core queue size;
    prio = prio;
    name = name;
    task_id = own_id core.rest;
    running = true;
  }

  abbrev pub started :
      (own_id : U → ℕ) → Core U → (p : ℕ) → Prio → (ℕ → ℕ) → (size name : ℕ) → Core U
  started own_id core p prio queue size name = record core {
    me = record core.me {
      aos = update core.me.aos prio.ao p;
      aos_cnt = core.me.aos_cnt + 1;
      running_ao_prio = prio;
    };
    objects = update core.objects p (started_ao own_id core p prio queue size name);
  }

  started-IsConsistent :
      (own_id : U → ℕ) (core : Core U) (p : ℕ) (prio : Prio) (queue : ℕ → ℕ) (size name : ℕ)
      → IsConsistent core
      → IsStartable core p prio size
      → own_id core.rest ≢ 0
      → IsConsistent (started own_id core p prio queue size name)
  started-IsConsistent own_id core p prio queue size name c s task =
      let ao = started_ao own_id core p prio queue size name in
      let each : (P : Ao → Type 0) (i : ℕ)
          → i < 64
          → (prio.ao ≡ i → P ao)
          → (core.me.aos i ≢ 0 → P (core.objects (core.me.aos i)))
          → update core.me.aos prio.ao p i ≢ 0
          → P (update core.objects p ao (update core.me.aos prio.ao p i)) =
        λ P i lt. registered-cases P core.me.aos core.objects prio.ao p ao i (s.elsewhere i lt) in
      record {
        ready = c.ready;
        own_prio = λ i lt. each (λ o. o.prio.ao ≡ i) i lt (λ e. e) (c.own_prio i lt);
        has_task = λ i lt. each (λ o. o.task_id ≢ 0) i lt (λ e. task) (c.has_task i lt);
        queue = λ i lt.
            each (λ o. Queues.IsValid o.event_queue) i lt
              (λ e. record {
                ready = refl;
                read_in = s.sized;
                free_in = omega arith;
                write_at = ground (arith, s.sized);
                full_when = ground (arith, s.sized);
                least = omega arith;
              })
              (c.queue i lt);
        awake = λ i lt.
            each (λ o. 0 < nbusy o.event_queue → u64_has core.ready_aos i ≡ true) i lt
              (λ e busy. absurd (omega arith)) (c.awake i lt);
        known = λ i lt h.
            update-cases (λ q. q ≢ 0) core.me.aos prio.ao p i (λ e. s.some_ao) λ e. c.known i lt h;
      }

  started-IsWired :
      (own_id : U → ℕ) (async : AsyncState) (core : Core U) (p : ℕ) (prio : Prio) (queue : ℕ → ℕ)
      (size name : ℕ)
      → IsWired async core
      → p ≢ 0
      → IsWired (with_handler async p prio.ao) (started own_id core p prio queue size name)
  started-IsWired own_id async core p prio queue size name h ne = record {
    lists = h.lists;
    wired = λ i lt. wired_at (prio.ao == i) i (h.wired i lt);
    only = λ i lt. only_at (prio.ao == i) i (h.only i lt);
  }
    where
      new : Handler
      new = record { fn = handler_address; ctx = p }

      wired_at :
          (b : Bool) (i : ℕ)
          → (core.me.aos i ≢ 0
              → ((async.handlers i).ctx ≡ core.me.aos i) × ((async.handlers i).fn ≢ 0))
          → (if b then p else core.me.aos i) ≢ 0
          → ((if b then new else async.handlers i).ctx ≡ (if b then p else core.me.aos i))
            × ((if b then new else async.handlers i).fn ≢ 0)
      wired_at true i old ne' = (refl, omega arith)
      wired_at false i old ne' = old ne'

      only_at :
          (b : Bool) (i : ℕ)
          → ((async.handlers i).fn ≢ 0 → core.me.aos i ≢ 0)
          → (if b then new else async.handlers i).fn ≢ 0
          → (if b then p else core.me.aos i) ≢ 0
      only_at true i old some_fn = ne
      only_at false i old some_fn = old some_fn

  free_slot :
      (async : AsyncState) (core : Core U) (i : ℕ)
      → IsWired async core
      → i < 64
      → core.me.aos i ≡ 0
      → (0 == (async.handlers i).fn) ≡ true
  free_slot async core i h lt vacant = elim (Bool-cases (0 == (async.handlers i).fn)) [
    | inl e ↦ e
    | inr e ↦ absurd (h.only i lt (ground arith) vacant)
  ]

module _ {U : Type 0} (own_id : U → ℕ) (init_wait on_idle : U → U)
    (user : (fn ctx event : ℕ) → System U → Checked (System U)) where
  -- Starting an active object that was initialised, at a free priority, fails no assertion of its
  -- own. Before the user's init handler is called, the active object has an empty queue and its
  -- handler is registered, in a system that keeps its invariants; behind it no priority runs.
  pub start-started :
      (w : World) (async : AsyncState) (core : Core U) (p : ℕ) (prio : Prio) (queue : ℕ → ℕ)
      (size name init_event : ℕ)
      → IsConsistent core
      → IsWired async core
      → IsStartable core p prio size
      → own_id core.rest ≢ 0
      → let now = started own_id core p prio queue size name in
        let async' = with_handler async p prio.ao in
        let ao = core.objects p in
        (start own_id init_wait on_idle user
            (w, async, core)
            p
            prio
            (some queue)
            size
            name
            init_event
          ≡ ((if non_null ao.user_init_handler
                then user ao.user_init_handler ao.ctx init_event (w, async', now)
                else ok (w, async', now))
              >>= λ (w', async2, core'). ok (w', async2, set_running core' prio_invalid)))
        × IsConsistent now
        × IsWired async' now
        × (contents (started_ao own_id core p prio queue size name).event_queue ≡ [])
  unfolding start register_with_id EventQueue.init
  start-started w async core p prio queue size name init_event c wired s task =
      let some_ao : non_null p ≡ true = ground (arith, s.some_ao) in
      let valid : prio_is_valid prio ≡ true = ground (arith, s.prio_in, s.task_in) in
      let sized : ltb 0 size ≡ true = ground (arith, s.sized) in
      let vacant : (0 == core.me.aos prio.ao) ≡ true = ground (arith, s.vacant) in
      let in_table : ltb prio.ao handlers_num_max ≡ true = ground (arith, s.prio_in) in
      let no_handler : (0 == (async.handlers prio.ao).fn) ≡ true =
        free_slot async core prio.ao wired (omega (arith, s.prio_in)) s.vacant in
      (
        rw (some_ao, ap check s.inited, valid, sized, vacant, in_table, no_handler) refl,
        started-IsConsistent own_id core p prio queue size name c s task,
        started-IsWired own_id async core p prio queue size name wired s.some_ao,
        ground arith,
      )
