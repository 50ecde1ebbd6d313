-- ===== src/Lib.antt =====
-- The libraries of amast that this development models are those that an event driven program
-- is made of: memory (libs/slist, libs/dlist, libs/onesize, libs/ringbuf), events (libs/event),
-- timers (libs/timer), state machines (libs/fsm, libs/hsm) and active objects (libs/ao). A pool of
-- libs/onesize keeps its free blocks in a list of libs/slist, and a timer its events; the allocator
-- of libs/event takes events from such pools, counts their holders, and gives them back when the
-- last one lets go; an event queue holds a reference to each event in it. An active object has
-- such a queue, to which its handler in the table of event_async.c pushes what is posted or
-- published; the bits of libs/bit say which active objects are ready, and the cooperative port
-- serves the one with the highest priority. A state machine is what its user function is made of.
--
-- Files and code:
--   Common      the results of code with AM_ASSERT (libs/common/macros.h), memory as a map,
--               the Boolean tests of C on numbers
--   Ringbuf     libs/ringbuf/ringbuf.c. A record for struct am_ringbuf, a function for each
--               call, with the call's name less am_ringbuf_. Valid: the invariant. Write,
--               Read: the two sides. Fifo: their interleavings
--   Slist       libs/slist/slist.c. The next fields are one map from addresses to addresses.
--               Chain: which items a list holds. Insert, Remove, Search, Append: the calls
--   Dlist       libs/dlist/dlist.c, with a second map for the prev fields. Ring: which items a
--               list holds. Change: pushes and pop. Walk: searches
--   Onesize     libs/onesize/onesize.c, on Slist. Valid: the invariant, and who holds a block.
--               Count: a bound. Allocate, Free, Iterate: the calls
--   Event       libs/event/event.c and event_pool.c, on Onesize. Search: the choice of the
--               pool. Allocate, Ref, Release: allocation, counting, the last holder.
--               Pool: getters and log
--   Bit         libs/bit/bit.c. Msb: the table. Valid: the invariant. Change: set and clear
--   EventLists  struct am_event_subscribe_list of libs/event/event_common.h, and its updates
--   EventAsync  libs/event/event_async.c, on EventLists and Event. Subscribe: who is on the
--               lists. Publish: who is called
--   EventSync   libs/event/event_sync.c, on EventLists. Register: the place of a handler. Order:
--               who is called
--   Crc         libs/crc/crc.c. Tables: the tables. Rounds: the definition of a check. Lookup,
--               Refine: the tables and the functions against it
--   Cobszpe     libs/cobszpe/cobszpe.c. Loop: the invariant. Frame: what the
--               encoder writes
--   Strlib      libs/strlib/strlib.c. Strings: what is in memory after a call
--   Throttle    libs/common/throttle.c. Interval: which calls it admits
--   Ao          libs/ao/ao.c, on EventAsync and EventQueue; Ao/Port is
--               libs/ao/cooperative/port.c. Consistent: the invariant. Deliver, Refuse: posting.
--               Publish, Broadcast: publishing. Schedule: the loop. Life, Stop: start and stop.
--               Dump: the logs for debugging. Runs: whole runs
--   EventQueue  libs/event/event_queue.c, on Event. Ring: the events of a ring of slots.
--               Valid, Push, Margin, Pop, Flush: invariant and calls
--   Fsm         libs/fsm/fsm.c. Refine: the abstract step
--   Hsm         libs/hsm/hsm.h, and in Machine libs/hsm/hsm.c. Machine/Tree: the user's handlers
--               as a tree of states. Build, Exit, Enter, Lca, Transition: the parts of a
--               transition. Dispatch, Life: the calls. Tests: two corners
--   Timer       libs/timer/timer.c, on Slist. Arm: an event waits, and joins the running ones.
--               Next: one step of a tick
-- Each component has a module Examples with tests, and with the theorems at concrete inputs.
--
-- A failed assertion is the result `fault`. Addresses, sizes and indices are natural numbers;
-- where the code computes a difference that may be negative the model moves terms over, and
-- a comment at the definition says so. Bit fields and size_t computations wrap as written.
-- A critical section is one step: calls with and without the suffix _unsafe are one function.
-- Where two threads meet without one, as in the ring buffer, the steps are calls, which may
-- come in any order.
--
-- Bounds and fuel: the walks of a list take fuel, one round for each item and one more, and the
-- theorems say that this much is enough. am_event_queue_flush takes as many rounds as
-- the queue has events. The loops of libs/hsm are bounded by the code, which asserts that a
-- hierarchy has no more than AM_HSM_HIERARCHY_DEPTH_MAX levels; the theorems on libs/hsm are about
-- hierarchies with one level less, or two where they say so. The loop of a tick has a round for
-- each running event and one more. The loop over a byte of subscribers has a round for
-- each bit and one more, and that of am_ao_run_all one for each priority and one more.
--
-- Not modelled: memory orderings of atomic accesses inside a call, the platform layer
-- (libs/pal), whose functions are parameters of the active objects, the preemptive port of
-- libs/ao, and coroutines, which are macros in the user's code. User callbacks (handlers of
-- states and of active objects, predicates) are parameters. Assertions that a pointer to a
-- descriptor is not NULL have no counterpart, where descriptors are no addresses.
pub mod Common
pub mod Bit
pub mod Ringbuf
pub mod Slist
pub mod Onesize
pub mod Event
pub mod EventQueue
pub mod EventLists
pub mod EventAsync
pub mod EventSync
pub mod Ao
pub mod Crc
pub mod Cobszpe
pub mod Strlib
pub mod Throttle
pub mod Hsm
pub mod Fsm
pub mod Timer
pub mod Dlist
