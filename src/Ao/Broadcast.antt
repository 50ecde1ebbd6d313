-- ===== src/Ao/Broadcast.antt =====
-- am_ao_publish_exclude_x as a whole: the event is held while it is delivered, and let go of then.
use amast.Common.{
  ℕ, zero, suc, ◌+◌, ◌-◌, ◌<◌, ◌≤◌, ◌≡◌, ◌≢◌, ◌⊎◌, refl, ap, ap₂, ◌∙◌, arith, Bool, true, false,
  leb, if◌then◌else◌, Checked, ok, check, Returns, Returns-value, ◌>>=◌, ◌>>◌, inl, inr, none, some,
  List, length,
}
use amast.Slist.{non_null}
use amast.Event.{World, evt_user, is_static, inc_ref_cnt, free, ref_counter_max}
use amast.Event.Ref.{
  IsPooled, counted, inc_ref_cnt_lem, free-inc_ref_cnt, static_untouched, update_self,
}
use amast.EventQueue.{Policy}
use amast.EventQueue.Push.{held}
use amast.EventAsync.{AsyncState, handlers_num_max}
use amast.EventLists.{subscribers}
use amast.EventAsync.Publish.{receivers, call_each, publish-call_each}
use amast.Ao.{Core, event_handler, publish_exclude_x}
use amast.Ao.Consistent.{IsConsistent}
use amast.Ao.Deliver.{IsOpen, IsWired}
use amast.Ao.Publish.{
  held_times, is_member, Descends, subscribers-Descends, receivers-Descends, Spread,
  call_each-Spread,
}

held_times_static :
    (n : ℕ) (w : World) (e : ℕ) → is_static (w.event e) ≡ true → held_times n w e ≡ w
held_times_static zero w e s = refl
held_times_static (suc n) w e s =
    let same : held w e ≡ w = rw s refl in rw same (held_times_static n w e s)

held_last : (n : ℕ) (w : World) (e : ℕ) → held_times n (held w e) e ≡ held (held_times n w e) e
held_last zero w e = refl
held_last (suc n) w e = held_last n (held w e) e

held-IsPooled :
    (w : World) (e : ℕ)
    → IsPooled (w.event e)
    → IsPooled ((held w e).event e)
      × (((held w e).event e).ref_counter ≡ (w.event e).ref_counter + 1)
held-IsPooled w e d =
    let at = update_self w.event e (counted (w.event e) ((w.event e).ref_counter + 1)) in
    rw (d.dynamic, at)
      (record { dynamic = d.dynamic; indexed = d.indexed; intact = d.intact }, refl)

held_times-IsPooled :
    (n : ℕ) (w : World) (e : ℕ)
    → IsPooled (w.event e)
    → IsPooled ((held_times n w e).event e)
      × (((held_times n w e).event e).ref_counter ≡ (w.event e).ref_counter + n)
held_times-IsPooled zero w e d = (d, omega arith)
held_times-IsPooled (suc n) w e d =
    let (d1, one) = held-IsPooled w e d in
    let (dn, more) = held_times-IsPooled n (held w e) e d1 in (dn, omega (arith, one, more))

inc_ref_cnt-held :
    (w : World) (e : ℕ)
    → e ≢ 0
    → IsPooled (w.event e)
    → (w.event e).ref_counter < ref_counter_max
    → inc_ref_cnt w e ≡ ok (held w e)
inc_ref_cnt-held w e ne d lt = inc_ref_cnt_lem w e ne d lt ∙ rw d.dynamic refl

-- Freeing an event takes back the last hold of it.
free-held :
    (w : World) (e : ℕ)
    → e ≢ 0
    → IsPooled (w.event e)
    → 0 < (w.event e).ref_counter
    → (w.event e).ref_counter < ref_counter_max
    → free true (held w e) e ≡ ok w
free-held w e ne d pos lt = rw (inc_ref_cnt-held w e ne d lt) at (free-inc_ref_cnt w e ne d pos lt)

-- An event that can be published to `n` handlers: a static one, or a pooled one that has or gets a
-- holder, and whose counter does not reach its maximum.
unfoldable pub IsPublishable : (alloc : Bool) → ℕ → World → ℕ → Type 0
IsPublishable alloc n w event =
    (is_static (w.event event) ≡ true)
    ⊎ ((alloc ≡ true)
        × IsPooled (w.event event)
        × (0 < (w.event event).ref_counter + n)
        × ((w.event event).ref_counter + n < ref_counter_max))

module _ {U : Type 0} where
  -- the policy of a publication that leaves out the active object at `p`
  abbrev pub policy_of : Core U → (p margin : ℕ) → Policy
  policy_of core p margin = record {
    lifo = false;
    margin = margin;
    exclude_id = if non_null p then some (core.objects p).prio.ao else none;
  }

  -- the priorities that it reaches: subscribed, not excluded and registered
  abbrev pub reached : AsyncState → Core U → World → (event p margin : ℕ) → List ℕ
  reached async core w event p margin =
      receivers async (policy_of core p margin)
        (subscribers handlers_num_max (async.sub ((w.event event).id - evt_user)))

module _ {U : Type 0} (task_notify : ℕ → U → U) where
  -- the publication but for its first checks
  middle :
      (async : AsyncState) → List ℕ → ℕ → Policy → World → Core U → Checked (Bool × World × Core U)
  middle async inds event policy w core =
      (if is_static (w.event event) then ok w else (check async.alloc >> inc_ref_cnt w event))
      >>= λ w1.
          call_each (event_handler task_notify) async inds event policy (true, w1, core)
          >>= λ (all, w2, core'). free async.alloc w2 event >>= λ w3. ok (all, w3, core')

  middle-Spread :
      (async : AsyncState) (inds : List ℕ) (event : ℕ) (policy : Policy) (w : World) (core : Core U)
      → policy.lifo ≡ false
      → Descends handlers_num_max inds
      → IsConsistent core
      → IsWired async core
      → event ≢ 0
      → ((i : ℕ) → is_member i inds ≡ true → IsOpen core i policy.margin)
      → IsPublishable async.alloc (length inds) w event
      → Returns (Spread w core inds event true) (middle async inds event policy w core)
  unfolding middle IsPublishable
  middle-Spread async inds event policy w core fifo d c wired ne each (inl static) =
      let (r, e, s) =
        Returns-value _
          (call_each (event_handler task_notify) async inds event policy (true, w, core))
          (call_each-Spread task_notify inds handlers_num_max async core w event policy true fifo d
            c wired each (record { non_null = ne; header = inl static })) in
      let same : r.1 ≡ w = s.world ∙ held_times_static (length inds) w event static in
      let still : is_static (r.1.event event) ≡ true = rw same static in
      rw (static, e, (static_untouched async.alloc r.1 event ne still).1)
        (record {
          accepted = s.accepted;
          world = s.world;
          consistent = s.consistent;
          queues = s.queues;
        })
  middle-Spread async inds event policy w core fifo d c wired ne each
        (inr (alloc, pooled, pos, lt)) =
      let n = length inds in
      let hold = inc_ref_cnt-held w event ne pooled (omega arith) in
      let (d1, one) = held-IsPooled w event pooled in
      let (r, e, s) =
        Returns-value _
          (call_each (event_handler task_notify) async inds event policy (true, held w event, core))
          (call_each-Spread task_notify inds handlers_num_max async core (held w event) event policy
            true fifo d c wired each
            (record { non_null = ne; header = inr (d1.dynamic, d1.intact, omega (arith, one)) })) in
      let last : r.1 ≡ held (held_times n w event) event = s.world ∙ held_last n w event in
      let (dn, count) = held_times-IsPooled n w event pooled in
      let let_go : free async.alloc r.1 event ≡ ok (held_times n w event) =
        ap₂ (λ a x. free a x event) alloc last
        ∙ free-held (held_times n w event) event ne dn (omega (arith, count))
            (omega (arith, count)) in
      rw (pooled.dynamic, ap check alloc, hold, e, let_go)
        (record {
          accepted = s.accepted;
          world = refl;
          consistent = s.consistent;
          queues = s.queues;
        })

  -- Once the library is initialised, and for an event with a subscription list, that can have as
  -- many more holders as it reaches active objects: those that are subscribed, registered and not
  -- excluded. If each of them is running and has more free slots than the margin, no assertion of
  -- the publication fails, and it reaches them and no other: the event comes last in each of their
  -- queues, all other queues are as they were, each active object that has an event is ready to
  -- run, and the event has one more holder for each queue that it is in.
  pub publish_exclude_x-Spread :
      (w : World) (async : AsyncState) (core : Core U) (event p margin : ℕ)
      → IsConsistent core
      → IsWired async core
      → async.has_sub ≡ true
      → core.me.init_complete ≡ true
      → event ≢ 0
      → evt_user ≤ (w.event event).id
      → (w.event event).id - evt_user < async.nsub
      → ((i : ℕ) → is_member i (reached async core w event p margin) ≡ true → IsOpen core i margin)
      → IsPublishable async.alloc (length (reached async core w event p margin)) w event
      → Returns
          (λ (all, (w', async', core')).
            (async' ≡ async)
            × Spread w core (reached async core w event p margin) event true (all, w', core'))
          (publish_exclude_x task_notify (w, async, core) event p margin)
  unfolding publish_exclude_x middle
  publish_exclude_x-Spread w async core event p margin c wired enabled complete ne user listed each
        can =
      let policy = policy_of core p margin in
      let si = (w.event event).id - evt_user in
      let subscribed = subscribers handlers_num_max (async.sub si) in
      let inds = receivers async policy subscribed in
      let below =
        receivers-Descends async policy handlers_num_max subscribed
          (subscribers-Descends handlers_num_max (async.sub si)) in
      let run =
        publish-call_each (event_handler task_notify) async event policy w core wired.lists enabled
          ne user listed in
      let (r, e, s) =
        Returns-value _ (middle async inds event policy w core)
          (middle-Spread async inds event policy w core refl below c wired ne each can) in
      let some_event : non_null event ≡ true = ground arith in
      let user_id : leb evt_user (w.event event).id ≡ true = ground arith in
      rw (some_event, user_id, ap check complete, run ∙ e) (refl, s)
