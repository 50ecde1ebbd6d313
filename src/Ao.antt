-- ===== src/Ao.antt =====
-- libs/ao/ao.c, libs/ao/state.h and the notification of libs/ao/cooperative/port.c: active objects,
-- how events are posted and published to them, and the set of those that are ready to run. An
-- active object is named by its address; NULL is 0. Each function that an active object is given is
-- named by its address too. `task_notify` is am_task_notify of the platform layer, on a state `U`
-- that stands for the rest of the program. The critical sections are the granularity of the model.
pub mod Consistent
pub mod Deliver
pub mod Refuse
pub mod Publish
pub mod Broadcast
pub mod Port
pub mod Schedule
pub mod Life
pub mod Stop
mod Dump
mod Examples
mod Runs
use amast.Common.{
  ℕ, Bool, true, false, not, ◌&&◌, ltb, leb, ◌==◌, if◌then◌else◌, Checked, ok, check, ◌>>=◌, ◌>>◌,
  update, Option, none, some,
}
use amast.Slist.{non_null}
use amast.Bit.{BitU64, u64_set}
use amast.Event.{World, evt_user}
use amast.EventQueue.{
  EventQueue, Policy, plain_policy, Rc, rc_err, rc_ok, rc_queue_was_empty, is_empty, push,
}
use amast.EventAsync.{AsyncState, post, publish}
use amast.EventAsync

-- struct am_ao_prio: the priorities of an active object and of its task
pub record Prio : Type 0 where
  pub ao : ℕ
  pub task : ℕ

-- struct am_ao; `event_queue` is part of it, and 0 is AM_TASK_ID_NONE.
pub record Ao : Type 0 where
  pub user_init_handler : ℕ
  pub user_event_handler : ℕ
  pub ctx : ℕ
  pub name : ℕ
  pub event_queue : EventQueue
  pub last_event : ℕ
  pub task_id : ℕ
  pub prio : Prio
  pub init_event : ℕ
  pub init_called : Bool
  pub running : Bool

-- struct am_ao_state, without the two functions for critical sections; `on_idle` and `alloc` say
-- whether these pointers are not NULL.
pub record AoState : Type 0 where
  pub aos : ℕ → ℕ
  pub aos_cnt : ℕ
  pub on_idle : Bool
  pub running_ao_prio : Prio
  pub alloc : Bool
  pub init_complete : Bool

-- What the active objects' own code works on: the library's state, am_ready_aos_, the active
-- objects in memory, and the rest of the program.
pub record Core (U : Type 0) : Type 0 where
  pub me : AoState
  pub ready_aos : BitU64
  pub objects : ℕ → Ao
  pub rest : U

-- the memory of events, the subscriptions, and the above
abbrev pub System : Type 0 → Type 0
System U = World × AsyncState × Core U

-- AM_AO_PRIO_MAX and AM_AO_PRIO_INVALID
abbrev pub ao_prio_max : ℕ
ao_prio_max = 63

abbrev pub prio_invalid : Prio
prio_invalid = record { ao = 255; task = 255 }

abbrev pub prio_is_valid : Prio → Bool
prio_is_valid prio = leb prio.ao ao_prio_max && leb prio.task ao_prio_max

abbrev pub zero_queue : EventQueue
zero_queue = record {
  rd = 0;
  wr = 0;
  nfree = 0;
  nfree_min = 0;
  capacity = 0;
  events = λ _. 0;
  alloc = false;
  full = false;
  init_called = false;
}

-- whether a push reports that the queue was empty
abbrev pub is_first : Rc → Bool
is_first rc_err = false
is_first rc_ok = false
is_first rc_queue_was_empty = true

module _ {U : Type 0} where
  -- the active object at `p`, changed
  abbrev pub set_ao : Core U → ℕ → Ao → Core U
  set_ao core p ao = record core { objects = update core.objects p ao }

  abbrev pub set_queue : Core U → ℕ → EventQueue → Core U
  set_queue core p q = set_ao core p (record (core.objects p) { event_queue = q })

  -- am_ao_init
  pub init : Core U → (p init_handler event_handler ctx : ℕ) → Checked (Core U)
  init core p init_handler event_handler ctx = do
    check (non_null p)
    check (non_null event_handler)
    check (non_null ctx)
    ok (
        set_ao core p (record {
          user_init_handler = init_handler;
          user_event_handler = event_handler;
          ctx = ctx;
          name = 0;
          event_queue = zero_queue;
          last_event = 0;
          task_id = 0;
          prio = record { ao = 0; task = 0 };
          init_event = 0;
          init_called = true;
          running = false;
        }))

  -- am_ao_event_queue_is_empty
  pub event_queue_is_empty : Core U → ℕ → Checked Bool
  event_queue_is_empty core p = do
    let q = (core.objects p).event_queue
    check q.init_called
    ok (is_empty q)

  -- am_ao_get_cnt
  abbrev pub get_cnt : Core U → ℕ
  get_cnt core = core.me.aos_cnt

  -- am_ao_subscribe, am_ao_unsubscribe and am_ao_unsubscribe_all
  pub subscribe : Core U → (p event : ℕ) → AsyncState → Checked AsyncState
  subscribe core p event async = do
    check (non_null p)
    check (prio_is_valid (core.objects p).prio)
    check (leb evt_user event)
    EventAsync.subscribe async (core.objects p).prio.ao event

  pub unsubscribe : Core U → (p event : ℕ) → AsyncState → Checked AsyncState
  unsubscribe core p event async = do
    check (non_null p)
    check (prio_is_valid (core.objects p).prio)
    check (leb evt_user event)
    EventAsync.unsubscribe async (core.objects p).prio.ao event

  pub unsubscribe_all : Core U → (p : ℕ) → AsyncState → Checked AsyncState
  unsubscribe_all core p async = do
    check (non_null p)
    check (prio_is_valid (core.objects p).prio)
    EventAsync.unsubscribe_all async (core.objects p).prio.ao

module _ {U : Type 0} (task_notify : ℕ → U → U) where
  -- am_ao_notify_unsafe, and am_ao_notify but for its check of the address
  unfoldable pub notify : Core U → ℕ → Checked (Core U)
  notify core p =
      let ao = core.objects p in
      let wake = do
        ready ← u64_set core.ready_aos ao.prio.ao
        ok (record core { ready_aos = ready; rest = task_notify ao.task_id core.rest })
      in if 0 == ao.task_id then ok core else wake

  -- am_ao_event_handler_unsafe, which is the function of every handler that this library registers
  unfoldable pub event_handler :
      (fn ctx event : ℕ) → Policy → World → Core U → Checked (Bool × World × Core U)
  event_handler fn ctx event policy w core = do
    check (non_null ctx)
    check (non_null event)
    let ao = core.objects ctx
    check ao.running
    (rc, w', q) ← push w ao.event_queue event policy
    let queued = set_queue core ctx q
    core' ← if is_first rc then notify queued ctx else ok queued
    ok (true, w', core')

  -- what am_ao_post_fifo_x and am_ao_post_lifo_x have in common
  unfoldable pub post_x :
      (lifo : Bool) → System U → (p event margin : ℕ) → Checked (Bool × System U)
  post_x lifo (w, async, core) p event margin = do
    check (non_null p)
    let ao = core.objects p
    check ao.init_called
    check ao.running
    check (non_null event)
    (posted, w', core') ←
        post event_handler async ao.prio.ao event (plain_policy lifo margin) w core
    ok (posted, (w', async, core'))

  abbrev pub post_fifo_x : System U → (p event margin : ℕ) → Checked (Bool × System U)
  post_fifo_x = post_x false

  abbrev pub post_lifo_x : System U → (p event margin : ℕ) → Checked (Bool × System U)
  post_lifo_x = post_x true

  pub post_fifo : System U → (p event : ℕ) → Checked (System U)
  unfolding post_x
  post_fifo sys p event = do (posted, sys') ← post_fifo_x sys p event 0; check posted; ok sys'

  pub post_lifo : System U → (p event : ℕ) → Checked (System U)
  unfolding post_x
  post_lifo sys p event = do (posted, sys') ← post_lifo_x sys p event 0; check posted; ok sys'

  -- am_ao_publish_exclude_x; `p` may be NULL
  unfoldable pub publish_exclude_x : System U → (event p margin : ℕ) → Checked (Bool × System U)
  publish_exclude_x (w, async, core) event p margin = do
    check (non_null event)
    check (leb evt_user (w.event event).id)
    check core.me.init_complete
    let exclude_id = if non_null p then some (core.objects p).prio.ao else none
    let policy : Policy = record { lifo = false; margin = margin; exclude_id = exclude_id }
    (all_published, w', core') ← publish event_handler async event policy w core
    ok (all_published, (w', async, core'))

  pub publish_exclude : System U → (event p : ℕ) → Checked (System U)
  unfolding publish_exclude_x
  publish_exclude sys event p = do (all_published, sys') ← publish_exclude_x sys event p 0; ok sys'

  pub publish_x : System U → (event margin : ℕ) → Checked (Bool × System U)
  unfolding publish_exclude_x
  publish_x sys event margin = publish_exclude_x sys event 0 margin

  pub publish_all : System U → (event : ℕ) → Checked (System U)
  unfolding publish_exclude
  publish_all sys event = publish_exclude sys event 0
