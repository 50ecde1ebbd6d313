-- ===== src/Slist.antt =====
-- libs/slist/slist.c: a singly linked list that is closed through a sentinel. An item is its
-- address, NULL is 0, and the `next` fields of all items and sentinels are one map from addresses.
-- A call returns the changed map and list structure.
pub mod Chain
pub mod Insert
pub mod Remove
pub mod Search
pub mod Append
mod Examples
use amast.Common.{
  ℕ, zero, suc, ◌+◌, Bool, true, false, not, ◌&&◌, ltb, ◌==◌, if◌then◌else◌, Checked, ok, fault,
  check, ◌>>=◌, ◌>>◌, update,
}

abbrev pub Links : Type 0
Links = ℕ → ℕ

-- struct am_slist: the sentinel by its address, and the pointer to the last item
pub record Slist : Type 0 where
  pub sentinel : ℕ
  pub back : ℕ

-- struct am_slist_iterator
pub record Iterator : Type 0 where
  pub list : Slist
  pub cur : ℕ
  pub prev : ℕ

abbrev pub non_null : ℕ → Bool
non_null p = ltb 0 p

unfoldable pub init : Links → Slist → Links × Slist
init next l = (update next l.sentinel l.sentinel, record l { back = l.sentinel })

abbrev pub is_empty : Links → Slist → Bool
is_empty next l = next l.sentinel == l.sentinel

unfoldable pub item_is_linked : Links → ℕ → Bool
item_is_linked next item = non_null (next item)

pub item_init : Links → ℕ → Links
item_init next item = update next item 0

unfoldable pub push_after : Links → Slist → ℕ → ℕ → Checked (Links × Slist)
push_after next l item newitem = do
  check (non_null item)
  check (non_null (next item))
  check (non_null newitem)
  let back = if l.back == item then newitem else l.back
  ok (update (update next newitem (next item)) item newitem, record l { back = back })

-- The first part of the result is what is popped, or NULL.
unfoldable pub pop_after : Links → Slist → ℕ → Checked (ℕ × Links × Slist)
pop_after next l item = do
  check (non_null item)
  check (non_null (next item))
  check (non_null (next (next item)))
  let pop = next item
  let back = if l.back == pop then item else l.back
  if pop == l.sentinel
      then ok (0, next, l)
      else ok (pop, update next item (next pop), record l { back = back })

pub next_item : Links → Slist → ℕ → Checked ℕ
next_item next l item = do
  check (non_null item)
  ok (if next item == l.sentinel then 0 else next item)

-- The loop of am_slist_find from `item` on, with fuel.
pub find_loop : ℕ → Links → ℕ → (ℕ → Bool) → ℕ → Checked ℕ
find_loop zero next sentinel is_found item = fault
find_loop (suc fuel) next sentinel is_found item =
    let rest = find_loop fuel next sentinel is_found (next item) in
    if not (item == sentinel) && not (is_found item) then rest else ok item

pub find : ℕ → Links → Slist → (ℕ → Bool) → Checked ℕ
unfolding find_loop
find fuel next l is_found = do
  item ← find_loop fuel next l.sentinel is_found (next l.sentinel)
  ok (if item == l.sentinel then 0 else item)

abbrev pub peek_front : Links → Slist → ℕ
peek_front next l = if is_empty next l then 0 else next l.sentinel

pub peek_back : Links → Slist → ℕ
peek_back next l = if is_empty next l then 0 else l.back

-- The loop of am_slist_owns from `p` on, with fuel.
pub owns_loop : ℕ → Links → ℕ → ℕ → ℕ → Checked Bool
owns_loop zero next sentinel item p = fault
owns_loop (suc fuel) next sentinel item p =
    let rest = owns_loop fuel next sentinel item (next p) in
    if p == sentinel then ok false else if p == item then ok true else rest

unfoldable pub owns : ℕ → Links → Slist → ℕ → Checked Bool
unfolding owns_loop
owns fuel next l item = do
  check (non_null item)
  owns_loop fuel next l.sentinel item (next l.sentinel)

unfoldable pub push_front : Links → Slist → ℕ → Checked (Links × Slist)
push_front next l item = push_after next l l.sentinel item

unfoldable pub pop_front : Links → Slist → Checked (ℕ × Links × Slist)
pop_front next l = pop_after next l l.sentinel

pub push_back : Links → Slist → ℕ → Checked (Links × Slist)
push_back next l item = push_after next l l.back item

-- The result is the links, `to` and `from`.
unfoldable pub append : Links → Slist → Slist → Links × Slist × Slist
unfolding init
append next to from =
    let linked = update (update next to.back (next from.sentinel)) from.back to.sentinel in
    let (next', from') = init linked from in
    if is_empty next from then (next, to, from) else (next', record to { back = from.back }, from')

unfoldable pub iterator_init : Slist → Iterator
iterator_init l = record { list = l; cur = l.sentinel; prev = 0 }

-- The first part of the result is the item, or NULL at the end.
unfoldable pub iterator_next : Links → Iterator → Checked (ℕ × Iterator)
iterator_next next it = do
  check (non_null it.cur)
  let cur = next it.cur
  ok (if cur == it.list.sentinel then 0 else cur, record it { prev = it.cur; cur = cur })

-- `it->list` is a pointer, so the changed list is in the iterator that is returned.
pub iterator_pop : Links → Iterator → Checked (ℕ × Links × Iterator)
iterator_pop next it = do
  check (non_null it.prev)
  check (non_null it.cur)
  let pop = it.cur
  let l = it.list
  let back = if l.back == pop then it.prev else l.back
  ok (
    pop,
    update (update next it.prev (next pop)) pop 0,
    record { list = record l { back = back }; cur = it.prev; prev = 0 },
  )
