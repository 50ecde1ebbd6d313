-- ===== src/Ao/Runs.antt =====
-- am_ao_start, am_ao_stop and whole runs, at the two active objects of Examples.
use amast.Common.{
  ℕ, ◌≡◌, refl, arith, Bool, true, false, Checked, ok, ◌>>=◌, List, [], ◌∷◌, Returns, update, some,
  none, fault, clear_bit,
}
use amast.Slist.{push_front, push_after}
use amast.Event.{World, free_unsafe, free, release, inc_ref_cnt}
use amast.Bit.{u8_msb, u64_set}
use amast.Event.Examples.{world, pool-IsPool, event_64-IsOwned, event_64-IsPooled}
use amast.Onesize
use amast.EventQueue.{contents, push, hold, get_nbusy, pop_front}
use amast.EventQueue.Pop.{popped}
use amast.EventQueue.Flush.{free_list}
use amast.EventAsync.{post, publish, deliver, deliver_bytes}
use amast.Ao.{Core, Prio, System, event_handler, notify, post_x, publish_exclude_x}
use amast.Ao.Refuse.{IsGivable, Posted, post_x-Posted}
use amast.Ao.Dump.{
  dump_queue, dump_object, dump_loop, crash_dump_event_queues_unsafe, log_loop, log_last_events,
}
use amast.Ao.Port.{start, stop, set_running}
use amast.Ao.Consistent.{IsConsistent}
use amast.Ao.Deliver.{IsWired}
use amast.Ao.Life.{IsStartable, started, started_ao, with_handler, start-started}
use amast.Ao.Stop.{Stopped, stop-Stopped}
use amast.Ao.Examples.{
  core, core-IsConsistent, async, async-IsWired, same, task_1, nothing, count, object, queue_with,
}

-- a free priority, for an active object at 500 that was initialised
abbrev prio_20 : Prio
prio_20 = record { ao = 20; task = 0 }

object_500-IsStartable : IsStartable core 500 prio_20 8
object_500-IsStartable = record {
  some_ao = omega arith;
  inited = refl;
  prio_in = omega arith;
  task_in = omega arith;
  sized = omega arith;
  vacant = refl;
  elsewhere = λ i lt e. ground arith;
}

start-started_example :
    (start task_1 same same nothing (world, async, core) 500 prio_20 (some λ _. 0) 8 0 0 ≡ (
      ok (world, with_handler async 500 20, started task_1 core 500 prio_20 (λ _. 0) 8 0)
      >>= λ (w', async2, core').
          ok (w', async2, set_running core' (record { ao = 255; task = 255 }))))
    × IsConsistent (started task_1 core 500 prio_20 (λ _. 0) 8 0)
    × IsWired (with_handler async 500 20) (started task_1 core 500 prio_20 (λ _. 0) 8 0)
    × (contents (started_ao task_1 core 500 prio_20 (λ _. 0) 8 0).event_queue ≡ [])
start-started_example =
    start-started task_1 same same nothing world async core 500 prio_20 (λ _. 0) 8 0 0
      core-IsConsistent async-IsWired object_500-IsStartable (omega arith)

freed_run : free_list true world (5 ∷ []) ≡ ok world
unfolding free_unsafe
freed_run = refl

stop-Stopped_example :
    Returns (Stopped world async core 9) (stop task_1 same same nothing (world, async, core) 900)
stop-Stopped_example =
    stop-Stopped task_1 same same nothing world async core 9 core-IsConsistent async-IsWired
      (omega arith) (omega arith) (omega arith) refl (omega arith) (omega arith, tt) freed_run

-- A queue of four slots, of which one is free: with margin 1 it takes no event.
abbrev tight : Core ℕ
tight = record core {
  objects = update core.objects 300 (record (object 3 3) { event_queue = queue_with 3 });
}

-- an event of the pool that nobody holds yet, as it is published
abbrev new_world : World
new_world = record world {
  event = update world.event 64 (record (world.event 64) { id = 9; ref_counter = 0; id_lsw = 9 });
}

event_64-IsGivable : IsGivable world 64 (72 ∷ [])
event_64-IsGivable = record {
  non_null = omega arith;
  pooled = event_64-IsPooled;
  counted = omega arith;
  user = omega arith;
  pool = pool-IsPool;
  owned = event_64-IsOwned;
}

-- Three of the four slots of 900 are free: with margin 3 it takes no event.
post_x-Posted_example :
    Returns
      (λ (posted, (w', async', core')).
        (async' ≡ async) × Posted count world core 9 64 3 false (72 ∷ []) (posted, w', core'))
      (post_x count false (world, async, core) 900 64 3)
post_x-Posted_example =
    post_x-Posted count false world async core 9 64 3 (72 ∷ []) core-IsConsistent async-IsWired
      (omega arith) (omega arith) refl refl refl event_64-IsGivable (omega arith) (omega arith)

-- the result, what the active object at `p` has queued, and the free blocks of pool 0
abbrev outcome : ℕ → Checked (Bool × System ℕ) → Bool × List ℕ × ℕ
outcome p (ok (all, (w, async', core'))) =
    (all, contents (core'.objects p).event_queue, (w.alloc.pools 0).nfree)
outcome p fault = (false, [], 0)

-- The queue of 300 has no room, and yet the result is true.
refused_run :
    outcome 300 (post_x count false (world, async, tight) 300 7 1) ≡ (true, 5 ∷ 5 ∷ 5 ∷ [], 3)
unfolding post_x post event_handler push free_unsafe
refused_run = refl

-- The event is accepted by 900 and refused by 300, which gives back a reference that it never took.
-- The publisher's own reference is then the last one: the block is back in the pool, while 900
-- still has the event in its queue.
abbrev published : Checked (Bool × System ℕ)
published = publish_exclude_x count (new_world, async, tight) 64 0 1

freed_in_queue_run : outcome 900 published ≡ (true, 5 ∷ 64 ∷ [], 4)
unfolding publish_exclude_x publish inc_ref_cnt deliver_bytes deliver event_handler push hold notify
    u64_set u8_msb clear_bit free free_unsafe release Onesize.free push_front push_after
freed_in_queue_run = refl

-- 300 has an empty queue, and 900 one event.
dump_run :
    crash_dump_event_queues_unsafe none core
    ≡ ok (
      record { name = 0; i = 0; len = 0; cap = 4; event = 0 }
          ∷ record { name = 0; i = 0; len = 1; cap = 4; event = 5 }
          ∷ [],
      record core {
        objects =
            update
              (update core.objects 300 (object 3 0))
              900
              (record (object 9 1) { event_queue = popped (queue_with 1) });
      },
    )
unfolding crash_dump_event_queues_unsafe dump_loop dump_object dump_queue get_nbusy pop_front
dump_run = refl

log_run : log_last_events core ≡ (0, 0) ∷ (0, 0) ∷ []
unfolding log_last_events log_loop
log_run = refl
