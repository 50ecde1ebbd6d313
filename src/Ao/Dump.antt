-- ===== src/Ao/Dump.antt =====
-- The two calls of libs/ao/ao.c for debugging: am_ao_crash_dump_event_queues_unsafe, which empties
-- the queues of all active objects, and am_ao_log_last_events. What they log is the list of the
-- calls of the user's function.
use amast.Common.{
  ℕ, zero, suc, ◌+◌, ◌≤◌, ◌<◌, ◌≡◌, refl, sym, ap, arith, ltb, ◌==◌, if◌then◌else◌, min, List, [],
  ◌∷◌, ◌++◌, take, drop, Option, none, some, Checked, ok, check, Returns, Returns-bind, ◌>>=◌, ◌>>◌,
  update,
}
use amast.Slist.{non_null}
use amast.Slist.Chain.{Fresh, non_null_true}
use amast.EventQueue.{EventQueue, get_nbusy, pop_front, contents, nbusy}
use amast.EventQueue.Valid.{IsValid}
use amast.EventQueue.Pop.{popped, popped-IsValid, contents-popped, pop_front_some}
use amast.Ao.{Ao, Core, ao_prio_max}

-- a call of the function that is given to am_ao_crash_dump_event_queues_unsafe
pub record Dumped : Type 0 where
  pub name : ℕ
  pub i : ℕ
  pub len : ℕ
  pub cap : ℕ
  pub event : ℕ

-- the loop over `k` events of a queue
unfoldable pub dump_queue :
    (name len cap : ℕ) → (k j : ℕ) → EventQueue → Checked (List Dumped × EventQueue)
dump_queue name len cap zero j q = ok ([], q)
dump_queue name len cap (suc k) j q = do
  (event, q1) ← pop_front q
  check (non_null event)
  (calls, q2) ← dump_queue name len cap k (j + 1) q1
  ok (record { name = name; i = j; len = len; cap = cap; event = event } ∷ calls, q2)

unfoldable pub dump_object : (num : ℕ) → Ao → Checked (List Dumped × Ao)
unfolding dump_queue
dump_object num ao =
    let q = ao.event_queue in
    let cap = q.capacity in
    let dumped = do
      len ← get_nbusy q
      if min num len == 0
          then ok (record { name = ao.name; i = 0; len = len; cap = cap; event = 0 } ∷ [], ao)
          else (do
            (calls, q') ← dump_queue ao.name len cap (min num len) 0 q
            ok (calls, record ao { event_queue = q' }))
    in if q.init_called then dumped else ok ([], ao)

module _ {U : Type 0} where
  -- the loop over the `k` active objects from the `i`-th on
  unfoldable pub dump_loop : (num k i : ℕ) → Core U → Checked (List Dumped × Core U)
  unfolding dump_object
  dump_loop num zero i core = ok ([], core)
  dump_loop num (suc k) i core =
      let ao = core.me.aos i in
      let skip = dump_loop num k (i + 1) core in
      let dumped = do
        (calls, object) ← dump_object num (core.objects ao)
        (rest, core') ←
            dump_loop num k (i + 1) (record core { objects = update core.objects ao object })
        ok (calls ++ rest, core')
      in if non_null ao then dumped else skip

  -- `num` is `none` for a negative number, which stands for INT_MAX.
  unfoldable pub crash_dump_event_queues_unsafe :
      (num : Option ℕ) → Core U → Checked (List Dumped × Core U)
  unfolding dump_loop
  crash_dump_event_queues_unsafe none core = dump_loop 2147483647 (ao_prio_max + 1) 0 core
  crash_dump_event_queues_unsafe (some num) core = do
    check (ltb 0 num)
    dump_loop num (ao_prio_max + 1) 0 core

  unfoldable pub log_loop : (k i : ℕ) → Core U → List (ℕ × ℕ)
  log_loop zero i core = []
  log_loop (suc k) i core =
      let ao = core.me.aos i in
      let rest = log_loop k (i + 1) core in
      if non_null ao then ((core.objects ao).name, (core.objects ao).last_event) ∷ rest else rest

  unfoldable pub log_last_events : Core U → List (ℕ × ℕ)
  unfolding log_loop
  log_last_events core = log_loop (ao_prio_max + 1) 0 core

abbrev logged_events : List Dumped → List ℕ
logged_events [] = []
logged_events (call ∷ calls) = call.event ∷ logged_events calls

-- On a valid queue with at least `k` events the loop over them fails no assertion, logs the first
-- `k` in order, and leaves the others.
dump_queue-contents :
    (name len cap k j : ℕ) (q : EventQueue)
    → IsValid q
    → Fresh 0 (contents q)
    → k ≤ nbusy q
    → Returns
        (λ r.
          IsValid r.1
          × (logged_events r.0 ≡ take k (contents q))
          × (contents r.1 ≡ drop k (contents q)))
        (dump_queue name len cap k j q)
unfolding dump_queue
dump_queue-contents name len cap zero j q v fresh le = (v, refl, refl)
dump_queue-contents name len cap (suc k) j q v fresh le =
    let busy : 0 < nbusy q = omega arith in
    let first = contents-popped q v busy in
    let fresh' : Fresh 0 (q.events q.rd ∷ contents (popped q)) = rw first at fresh in
    let rest =
      dump_queue-contents name len cap k (j + 1) (popped q) (popped-IsValid q v busy) fresh'.1
        (omega arith) in
    rw (pop_front_some q v busy, first, non_null_true (q.events q.rd) (λ e. fresh'.0 (sym e)))
      (Returns-bind
        (λ r.
          IsValid r.1
          × (logged_events r.0 ≡ take k (contents (popped q)))
          × (contents r.1 ≡ drop k (contents (popped q))))
        (λ r.
          IsValid r.1
          × (logged_events r.0 ≡ q.events q.rd ∷ take k (contents (popped q)))
          × (contents r.1 ≡ drop k (contents (popped q))))
        (dump_queue name len cap k (j + 1) (popped q))
        (λ r.
          ok
            (record { name = name; i = j; len = len; cap = cap; event = q.events q.rd } ∷ r.0, r.1))
        rest λ r p. (p.0, ap (λ es. q.events q.rd ∷ es) p.1, p.2))
