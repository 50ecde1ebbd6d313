-- ===== src/EventQueue/Valid.antt =====
-- The invariant of an event queue.
use amast.Common.{
  ℕ, ◌+◌, ◌-◌, ◌≤◌, ◌<◌, ◌≡◌, arith, Bool, true, ltb, ◌==◌, if◌then◌else◌, ok, length, length-slice,
  length-append, slice, [],
}
use amast.EventQueue.{EventQueue, init, nbusy, contents, is_empty}

-- the index behind the last event
abbrev pub behind : EventQueue → ℕ
behind q = if ltb (q.rd + nbusy q) q.capacity then q.rd + nbusy q else q.rd + nbusy q - q.capacity

pub record IsValid (q : EventQueue) : Type 0 where
  pub ready : q.init_called ≡ true
  pub read_in : q.rd < q.capacity
  pub free_in : q.nfree ≤ q.capacity
  pub write_at : q.wr ≡ behind q
  pub full_when : q.full ≡ (q.nfree == 0)
  pub least : q.nfree_min ≤ q.nfree

pub length-contents : (q : EventQueue) → IsValid q → length (contents q) ≡ nbusy q
length-contents q v = ground (
  arith,
  length-slice q.events q.rd (nbusy q),
  length-slice q.events q.rd (q.capacity - q.rd),
  length-slice q.events 0 (q.rd + nbusy q - q.capacity),
  length-append (slice q.events q.rd (q.capacity - q.rd))
      (slice q.events 0 (q.rd + nbusy q - q.capacity)),
)

-- The test of an empty queue: no slot is busy.
pub is_empty_iff : (q : EventQueue) → IsValid q → is_empty q ≡ (nbusy q == 0)
is_empty_iff q v = ground arith

pub init-IsValid :
    (events : ℕ → ℕ) (n : ℕ) (alloc : Bool) {q : EventQueue}
    → init events n alloc ≡ ok q
    → IsValid q × (contents q ≡ [])
unfolding init
init-IsValid events n alloc e = ground arith
