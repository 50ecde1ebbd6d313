-- ===== src/Ao/Examples.antt =====
-- Two active objects: 300 at priority 3 without events, and 900 at priority 9 whose queue holds the
-- static event 5. Both are subscribed to the events with identifier 9, which 5 and 7 have.
use amast.Common.{
  ℕ, ◌+◌, ◌-◌, ◌<◌, ◌≡◌, ◌≢◌, refl, arith, true, false, ◌||◌, ◌==◌, Checked, ok, [], ◌∷◌, length,
  Returns, update, some, has_bit, set_bit, inl, inr, update-cases, subst, zero-has_bit, ◌%◌,
  Bool-cases, ==_iff,
}
use amast.Bit.{BitU64, u64_set, u64_has}
use amast.Bit.Valid as Bits
use amast.Bit.Examples.{no_bits, no_bits-IsValid}
use amast.Bit.Change.{u64_set-adds}
use amast.Event.Examples.{world}
use amast.EventQueue.Valid as Queues
use amast.EventQueue.{nbusy, EventQueue}
use amast.EventQueue.Push.{IsPushable}
use amast.EventAsync.{AsyncState}
use amast.EventLists.{subscribers}
use amast.EventAsync.Publish.{receivers}
use amast.Ao.{Ao, Core, System, prio_invalid, post_x, publish_exclude_x}
use amast.Ao.Port.{run_all}
use amast.Ao.Consistent.{IsConsistent}
use amast.Ao.Deliver.{Delivered, IsOpen, IsWired, post_x-Delivered}
use amast.Ao.Publish.{Spread, is_member}
use amast.Ao.Broadcast.{reached, IsPublishable, publish_exclude_x-Spread}
use amast.Ao.Schedule.{highest, last_round, run_all-highest}

abbrev pub queue_with : ℕ → EventQueue
queue_with n = record {
  rd = 0;
  wr = n;
  nfree = 4 - n;
  nfree_min = 2;
  capacity = 4;
  events = λ _. 5;
  alloc = true;
  full = false;
  init_called = true;
}

abbrev pub object : (prio n : ℕ) → Ao
object prio n = record {
  user_init_handler = 0;
  user_event_handler = 2;
  ctx = 40;
  name = 0;
  event_queue = queue_with n;
  last_event = 0;
  task_id = 1;
  prio = record { ao = prio; task = 0 };
  init_event = 0;
  init_called = true;
  running = true;
}

-- the state in which bit 9 is set, and `rest` counts notifications
abbrev pub core : Core ℕ
core = record {
  me = record {
    aos = update (update (λ _. 0) 3 300) 9 900;
    aos_cnt = 2;
    on_idle = false;
    running_ao_prio = prio_invalid;
    alloc = true;
    init_complete = true;
  };
  ready_aos = record { bytes = set_bit 0 1; bits = update (λ _. 0) 1 (set_bit 0 1) };
  objects = update (update (λ _. object 0 0) 300 (object 3 0)) 900 (object 9 1);
  rest = 0;
}

ready_facts :
    Bits.IsValid core.ready_aos
    × ((m : ℕ) → m < 64 → u64_has core.ready_aos m ≡ ((9 == m) || u64_has no_bits m))
unfolding u64_set
ready_facts = u64_set-adds no_bits 9 no_bits-IsValid (omega arith)

-- What holds of both holds of each registered active object.
each :
    (P : Ao → Type 0) (i : ℕ)
    → (3 ≡ i → P (object 3 0))
    → (9 ≡ i → P (object 9 1))
    → core.me.aos i ≢ 0
    → P (core.objects (core.me.aos i))
each P i low high =
    update-cases (λ q. q ≢ 0 → P (core.objects q)) (update (λ _. 0) 3 300) 9 900 i (λ e ne. high e)
      λ _.
        update-cases (λ q. q ≢ 0 → P (core.objects q)) (λ _. 0) 3 300 i (λ e ne. low e)
          λ _ ne. absurd (ne refl)

queue_with-IsValid : (n : ℕ) → n < 3 → Queues.IsValid (queue_with n)
queue_with-IsValid n h = record {
  ready = refl;
  read_in = omega arith;
  free_in = omega arith;
  write_at = ground arith;
  full_when = ground arith;
  least = omega arith;
}

bit_9 : u64_has core.ready_aos 9 ≡ true
bit_9 = ready_facts.1 9 (omega arith)

pub core-IsConsistent : IsConsistent core
core-IsConsistent = record {
  ready = ready_facts.0;
  own_prio = λ i lt. each (λ o. o.prio.ao ≡ i) i (λ e. e) (λ e. e);
  has_task = λ i lt. each (λ o. o.task_id ≢ 0) i (λ e. omega arith) (λ e. omega arith);
  queue = λ i lt.
      each (λ o. Queues.IsValid o.event_queue) i (λ e. queue_with-IsValid 0 (omega arith))
        (λ e. queue_with-IsValid 1 (omega arith));
  awake = λ i lt.
      each (λ o. 0 < nbusy o.event_queue → u64_has core.ready_aos i ≡ true) i
        (λ e busy. absurd (omega arith))
        (λ e busy. subst (λ k. u64_has core.ready_aos k ≡ true) e bit_9);
  known = λ i lt h. ground (arith, ready_facts.1 i lt, zero-has_bit (i % 8) (omega arith));
}

abbrev pub async : AsyncState
async = record {
  sub = update (λ _ _. 0) 5 (update (update (λ _. 0) 0 8) 1 2);
  has_sub = true;
  nsub = 10;
  handlers =
      update (update (λ _. record { fn = 0; ctx = 0 }) 3 (record { fn = 1; ctx = 300 })) 9
        (record { fn = 1; ctx = 900 });
  alloc = true;
}

pub async-IsWired : IsWired async core
async-IsWired = record {
  lists = λ si li. ground arith;
  wired = λ i lt ne. ground arith;
  only = λ i lt ne. ground arith;
}

-- a platform whose notification counts, and handlers that do nothing
abbrev pub count : ℕ → ℕ → ℕ
count task n = n + 1

abbrev pub same : ℕ → ℕ
same n = n

abbrev pub task_1 : ℕ → ℕ
task_1 n = 1

abbrev pub nothing : (fn ctx event : ℕ) → System ℕ → Checked (System ℕ)
nothing fn ctx event sys = ok sys

core_3-IsOpen : IsOpen core 3 1
core_3-IsOpen = record {
  prio_in = omega arith;
  present = omega arith;
  running = refl;
  room = omega arith;
}

event_7-IsPushable : IsPushable world 7
event_7-IsPushable = record { non_null = omega arith; header = inl refl }

post_x-Delivered_example :
    Returns
      (λ (posted, (w', async', core')).
        (async' ≡ async) × Delivered world core 3 7 true (posted, w', core'))
      (post_x count true (world, async, core) 300 7 1)
post_x-Delivered_example =
    post_x-Delivered count true world async core 3 7 1 core-IsConsistent async-IsWired core_3-IsOpen
      refl event_7-IsPushable (omega arith)

core_9-IsOpen : IsOpen core 9 1
core_9-IsOpen = record {
  prio_in = omega arith;
  present = omega arith;
  running = refl;
  room = omega arith;
}

reached_run : reached async core world 7 0 1 ≡ 9 ∷ 3 ∷ []
unfolding subscribers receivers has_bit
reached_run = refl

reached-IsOpen : (i : ℕ) → is_member i (reached async core world 7 0 1) ≡ true → IsOpen core i 1
reached-IsOpen i h = elim (Bool-cases (9 == i)) [
  | inl e ↦ subst (λ k. IsOpen core k 1) ((==_iff 9 i).0 e) core_9-IsOpen
  | inr e ↦
      let m = rw reached_run at h in
      let three : 3 ≡ i = ground arith in subst (λ k. IsOpen core k 1) three core_3-IsOpen
]

can_publish : IsPublishable true (length (reached async core world 7 0 1)) world 7
unfolding IsPublishable
can_publish = inl refl

publish_exclude_x-Spread_example :
    Returns
      (λ (all, (w', async', core')).
        (async' ≡ async)
        × Spread world core (reached async core world 7 0 1) 7 true (all, w', core'))
      (publish_exclude_x count (world, async, core) 7 0 1)
publish_exclude_x-Spread_example =
    publish_exclude_x-Spread count world async core 7 0 1 core-IsConsistent async-IsWired refl refl
      (omega arith) (omega arith) (omega arith) reached-IsOpen can_publish

run_all-highest_example :
    (ready : BitU64) × IsConsistent (record core { ready_aos = ready })
    × (run_all task_1 same same nothing (world, async, core)
        ≡ last_round task_1 same same nothing
            (highest 64 core.me.aos core.objects)
            (world, async, record core { ready_aos = ready }))
run_all-highest_example =
    run_all-highest task_1 same same nothing world async core core-IsConsistent

-- The active object at priority 9 is the one that is found.
highest_run : highest 64 core.me.aos core.objects ≡ some 9
unfolding highest
highest_run = refl
