-- ===== src/Ao/Stop.antt =====
-- am_ao_stop: an active object leaves, with its queue, its subscriptions and its place.
use amast.Common.{
  ℕ, ◌-◌, ◌<◌, ◌≤◌, ◌≡◌, ◌≢◌, refl, ap, sym, ◌∙◌, arith, true, false, not, ◌&&◌, ltb, ◌==◌, Checked,
  ok, check, Returns, Returns-value, update, update-cases, length,
}
use amast.Slist.{non_null}
use amast.Slist.Chain.{Fresh}
use amast.Bit.{BitU64, u64_has, u64_clear}
use amast.Bit.Valid as Bits
use amast.Bit.Change.{u64_clear-takes}
use amast.Event.{World}
use amast.EventQueue.{EventQueue, nbusy, contents, is_empty}
use amast.EventQueue
use amast.EventQueue.Valid as Queues
use amast.EventQueue.Flush.{free_list, flush_lem}
use amast.EventAsync.{AsyncState, unregister, unsubscribe_all}
use amast.EventLists.{AreBytes, on_list}
use amast.EventAsync.Subscribe.{unsubscribe_all-clears, unregister-clears}
use amast.Ao.{Ao, Core, System, ao_prio_max, prio_is_valid}
use amast.Ao.Port.{stop}
use amast.Ao.Consistent.{IsConsistent, same_prio}
use amast.Ao.Deliver.{IsWired}

-- What holds of each active object that is still registered when the one at priority `i` is not.
remaining-cases :
    (P : Ao → Type 0) (aos : ℕ → ℕ) (objects : ℕ → Ao) (i : ℕ) (ao : Ao) (k : ℕ)
    → (i ≢ k → aos i ≢ aos k)
    → (i ≢ k → aos k ≢ 0 → P (objects (aos k)))
    → update aos i 0 k ≢ 0
    → P (update objects (aos i) ao (update aos i 0 k))
remaining-cases P aos objects i ao k apart old =
    update-cases (λ q. q ≢ 0 → P (update objects (aos i) ao q)) aos i 0 k (λ e ne. absurd (ne refl))
      λ e ne.
        update-cases P objects (aos i) ao (aos k) (λ same. absurd (apart e same)) λ other. old e ne

module _ {U : Type 0} where
  -- the state without the active object at priority `i`, which has become `ao`
  abbrev pub without : Core U → ℕ → Ao → BitU64 → Core U
  without core i ao ready = record core {
    me = record core.me { aos = update core.me.aos i 0; aos_cnt = core.me.aos_cnt - 1 };
    ready_aos = ready;
    objects = update core.objects (core.me.aos i) ao;
  }

  without-IsConsistent :
      (core : Core U) (i : ℕ) (ao : Ao) (ready : BitU64)
      → IsConsistent core
      → i < 64
      → core.me.aos i ≢ 0
      → Bits.IsValid ready
      → ((n : ℕ) → n < 64 → u64_has ready n ≡ (not (i == n) && u64_has core.ready_aos n))
      → IsConsistent (without core i ao ready)
  without-IsConsistent core i ao ready c i_lt ne valid bits =
      let each : (P : Ao → Type 0) (k : ℕ)
          → k < 64
          → (i ≢ k → core.me.aos k ≢ 0 → P (core.objects (core.me.aos k)))
          → update core.me.aos i 0 k ≢ 0
          → P (update core.objects (core.me.aos i) ao (update core.me.aos i 0 k)) =
        λ P k lt.
          remaining-cases P core.me.aos core.objects i ao k
            λ other e. other (same_prio core i k c i_lt lt ne e) in
      record {
        ready = valid;
        own_prio = λ k lt. each (λ o. o.prio.ao ≡ k) k lt λ other. c.own_prio k lt;
        has_task = λ k lt. each (λ o. o.task_id ≢ 0) k lt λ other. c.has_task k lt;
        queue = λ k lt. each (λ o. Queues.IsValid o.event_queue) k lt λ other. c.queue k lt;
        awake = λ k lt.
            each (λ o. 0 < nbusy o.event_queue → u64_has ready k ≡ true) k lt
              λ other some_ao busy. bits k lt ∙ ground (arith, c.awake k lt some_ao busy);
        known = λ k lt h.
            update-cases (λ q. q ≢ 0) core.me.aos i 0 k (λ e. absurd (ground (arith, bits k lt)))
              λ e. c.known k lt (ground (arith, bits k lt));
      }

  without-IsWired :
      (async after : AsyncState) (core : Core U) (i : ℕ) (ao : Ao) (ready : BitU64)
      → AreBytes after.sub
      → IsWired async core
      → (after.handlers i).fn ≡ 0
      → ((k : ℕ) → i ≢ k → after.handlers k ≡ async.handlers k)
      → IsWired after (without core i ao ready)
  without-IsWired async after core i ao ready valid h gone others = record {
    lists = valid;
    wired = λ k lt.
        update-cases (λ q. q ≢ 0 → ((after.handlers k).ctx ≡ q) × ((after.handlers k).fn ≢ 0))
          core.me.aos i 0 k (λ e ne. absurd (ne refl)) λ e. rw (others k e) (h.wired k lt);
    only = λ k lt.
        update-cases (λ q. (after.handlers k).fn ≢ 0 → q ≢ 0) core.me.aos i 0 k
          (λ e some_fn. absurd (some_fn (ap (λ j. (after.handlers j).fn) (sym e) ∙ gone)))
          λ e. rw (others k e) (h.only k lt);
  }

-- What am_ao_stop leaves of the active object at priority `i`.
pub record Stopped {U : Type 0} (w : World) (async : AsyncState) (core : Core U) (i : ℕ)
    (r : System U) : Type 0 where
  pub freed :
      free_list
        (core.objects (core.me.aos i)).event_queue.alloc
        w
        (contents (core.objects (core.me.aos i)).event_queue)
      ≡ ok r.0
  pub consistent : IsConsistent r.2
  pub wired : IsWired r.1 r.2
  pub vacant : r.2.me.aos i ≡ 0
  pub not_ready : u64_has r.2.ready_aos i ≡ false
  pub unsubscribed : (si : ℕ) → si < async.nsub → on_list r.1.sub i si ≡ false
  pub others : (p : ℕ) → core.me.aos i ≢ p → r.2.objects p ≡ core.objects p

module _ {U : Type 0} (own_id : U → ℕ) (init_wait on_idle : U → U)
    (user : (fn ctx event : ℕ) → System U → Checked (System U)) where
  -- Stopping a registered active object from its own task fails no assertion, if no event of its
  -- queue is NULL and freeing these events fails none. They are freed in order, front first; the
  -- active object loses its place, its ready bit, its subscriptions and its handler, so that the
  -- invariants hold, and no other active object changes.
  pub stop-Stopped :
      (w : World) (async : AsyncState) (core : Core U) (i : ℕ) {freed : World}
      → IsConsistent core
      → IsWired async core
      → i < 64
      → core.me.aos i ≢ 0
      → (core.objects (core.me.aos i)).prio.task ≤ ao_prio_max
      → own_id core.rest ≡ (core.objects (core.me.aos i)).task_id
      → 0 < core.me.aos_cnt
      → Fresh 0 (contents (core.objects (core.me.aos i)).event_queue)
      → free_list
          (core.objects (core.me.aos i)).event_queue.alloc
          w
          (contents (core.objects (core.me.aos i)).event_queue)
        ≡ ok freed
      → Returns
          (Stopped w async core i)
          (stop own_id init_wait on_idle user (w, async, core) (core.me.aos i))
  unfolding stop EventQueue.deinit
  stop-Stopped w async core i {freed} c wired lt ne task own counted some_events frees =
      let p = core.me.aos i in
      let q = (core.objects p).event_queue in
      let prio = c.own_prio i lt ne in
      let some_ao : non_null p ≡ true = ground arith in
      let valid : prio_is_valid (core.objects p).prio ≡ true = ground (arith, prio) in
      let same_task : (own_id core.rest == (core.objects p).task_id) ≡ true = ground arith in
      let any : ltb 0 core.me.aos_cnt ≡ true = ground arith in
      let (ctx, fn) = wired.wired i lt ne in
      let (async1, e1, (v1, lists1, (handlers1, nsub1))) =
        Returns-value _ (unsubscribe_all async i)
          (unsubscribe_all-clears async i wired.lists lt fn) in
      let fn1 : (async1.handlers i).fn ≢ 0 = rw handlers1 fn in
      let (async2, e2, (v2, lists2, gone, others2)) =
        Returns-value _ (unregister async1 i) (unregister-clears async1 i v1 lt fn1) in
      let (ready, e3, (v3, bits)) =
        Returns-value _ (u64_clear core.ready_aos i)
          (u64_clear-takes core.ready_aos i c.ready lt) in
      let (left, left_valid, empty, flushes) = flush_lem q (c.queue i lt ne) some_events in
      let flushed = flushes w in
      let idle : nbusy left ≡ 0 = sym (Queues.length-contents left left_valid) ∙ ap length empty in
      let is_idle : is_empty left ≡ true = Queues.is_empty_iff left left_valid ∙ ground arith in
      let run : EventQueue.flush w q ≡ ok (length (contents q), freed, left) =
        rw frees at flushed in
      rw (some_ao, valid, same_task, any, prio, e1, run, ap check left_valid.ready, is_idle, e3, e2)
        (record {
          freed = frees;
          consistent = without-IsConsistent core i _ ready c lt ne v3 bits;
          wired =
              without-IsWired async async2 core i _ ready v2 wired gone
                λ k other. others2 k other ∙ ap (λ t. t k) handlers1;
          vacant = ground arith;
          not_ready = bits i lt ∙ ground arith;
          unsubscribed = λ si listed.
              lists2 i si
              ∙ ap (λ n. not (ltb si n && i == i) && on_list async1.sub i si) nsub1
              ∙ ground arith;
          others = λ p' other. ground arith;
        })
