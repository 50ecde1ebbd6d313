-- ===== src/Ao/Consistent.antt =====
-- The invariant of the active objects, and the set of those that are ready to run.
use amast.Common.{
  ℕ, ◌<◌, ◌≡◌, ◌≢◌, refl, subst, update-cases, ap, sym, ◌∙◌, arith, true, false, ◌||◌, ◌==◌, ok,
  Returns-value,
}
use amast.Bit.{BitU64, u64_has, u64_set}
use amast.Bit.Valid as Bits
use amast.Bit.Change.{u64_set-adds}
use amast.EventQueue.{EventQueue, nbusy}
use amast.EventQueue.Valid as Queues
use amast.Ao.{Ao, Core, set_queue, notify}

-- An active object stands at the place of its priority, has a task and a valid queue, and its bit
-- is set if its queue holds an event: no wake-up is lost. Every set bit is that of an active
-- object.
pub record IsConsistent {U : Type 0} (core : Core U) : Type 0 where
  pub ready : Bits.IsValid core.ready_aos
  pub own_prio : (i : ℕ) → i < 64 → core.me.aos i ≢ 0 → (core.objects (core.me.aos i)).prio.ao ≡ i
  pub has_task : (i : ℕ) → i < 64 → core.me.aos i ≢ 0 → (core.objects (core.me.aos i)).task_id ≢ 0
  pub queue :
      (i : ℕ)
      → i < 64
      → core.me.aos i ≢ 0
      → Queues.IsValid (core.objects (core.me.aos i)).event_queue
  pub awake :
      (i : ℕ)
      → i < 64
      → core.me.aos i ≢ 0
      → 0 < nbusy (core.objects (core.me.aos i)).event_queue
      → u64_has core.ready_aos i ≡ true
  pub known : (i : ℕ) → i < 64 → u64_has core.ready_aos i ≡ true → core.me.aos i ≢ 0

module _ {U : Type 0} where
  -- Two priorities at which the same active object stands are the same.
  pub same_prio :
      (core : Core U) (i k : ℕ)
      → IsConsistent core
      → i < 64
      → k < 64
      → core.me.aos i ≢ 0
      → core.me.aos i ≡ core.me.aos k
      → i ≡ k
  same_prio core i k c i_lt k_lt ne e =
      let k_ne : core.me.aos k ≢ 0 = λ z. ne (e ∙ z) in
      sym (c.own_prio i i_lt ne) ∙ ap (λ p. (core.objects p).prio.ao) e ∙ c.own_prio k k_lt k_ne

  -- The state with another queue at priority `i`, and perhaps more ready bits: it is consistent if
  -- the queue is valid and, if it is not empty, its bit is set.
  pub set_queue-IsConsistent :
      (core : Core U) (i : ℕ) (q : EventQueue) (ready : BitU64) (rest : U)
      → IsConsistent core
      → i < 64
      → core.me.aos i ≢ 0
      → Queues.IsValid q
      → Bits.IsValid ready
      → ((n : ℕ) → n < 64 → u64_has core.ready_aos n ≡ true → u64_has ready n ≡ true)
      → ((n : ℕ) → n < 64 → u64_has ready n ≡ true → core.me.aos n ≢ 0)
      → (0 < nbusy q → u64_has ready i ≡ true)
      → IsConsistent (record (set_queue core (core.me.aos i) q) { ready_aos = ready; rest = rest })
  set_queue-IsConsistent core i q ready rest c i_lt ne valid ready_valid more known awake =
      let p = core.me.aos i in
      let ao : Ao = record (core.objects p) { event_queue = q } in
      record {
        ready = ready_valid;
        own_prio = λ k k_lt k_ne. ground (arith, c.own_prio k k_lt k_ne);
        has_task = λ k k_lt k_ne. ground (arith, c.has_task k k_lt k_ne);
        queue = λ k k_lt k_ne.
            update-cases (λ ao. Queues.IsValid ao.event_queue) core.objects p ao (core.me.aos k)
              (λ e. valid) λ e. c.queue k k_lt k_ne;
        awake = λ k k_lt k_ne.
            update-cases (λ ao. 0 < nbusy ao.event_queue → u64_has ready k ≡ true) core.objects p ao
              (core.me.aos k)
              (λ e busy.
                subst (λ n. u64_has ready n ≡ true) (same_prio core i k c i_lt k_lt ne e)
                  (awake busy))
              λ e busy. more k k_lt (c.awake k k_lt k_ne busy);
        known = known;
      }

  -- The notification of an active object that has a task sets the bit of its priority.
  pub notify-sets :
      (task_notify : ℕ → U → U) (core : Core U) (p i : ℕ)
      → Bits.IsValid core.ready_aos
      → (core.objects p).task_id ≢ 0
      → (core.objects p).prio.ao ≡ i
      → i < 64
      → (ready : BitU64) × (notify task_notify core p
          ≡ ok (record core {
            ready_aos = ready;
            rest = task_notify (core.objects p).task_id core.rest;
          }))
        × (Bits.IsValid ready
            × ((n : ℕ) → n < 64 → u64_has ready n ≡ ((i == n) || u64_has core.ready_aos n)))
  unfolding notify
  notify-sets task_notify core p i v has_task own i_lt =
      let some_task : (0 == (core.objects p).task_id) ≡ false = ground arith in
      let (ready, e, bits) =
        Returns-value _ (u64_set core.ready_aos i) (u64_set-adds core.ready_aos i v i_lt) in
      (ready, rw (some_task, own, e) refl, bits)
