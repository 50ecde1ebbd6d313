-- ===== src/Dlist.antt =====
-- libs/dlist/dlist.c: a doubly linked list that is closed through a sentinel. An item is its
-- address, NULL is 0, and the fields of all items and sentinels are two maps from addresses. A list
-- is the address of its sentinel.
pub mod Ring
pub mod Change
pub mod Walk
mod Examples
use amast.Common.{
  ℕ, zero, suc, Bool, true, false, not, ◌&&◌, ltb, ◌==◌, if◌then◌else◌, Checked, ok, fault, check,
  ◌>>=◌, ◌>>◌, update,
}
use amast.Slist.{non_null}

-- struct am_dlist_item, for all items
pub record Links : Type 0 where
  pub next : ℕ → ℕ
  pub prev : ℕ → ℕ

-- struct am_dlist_iterator
pub record Iterator : Type 0 where
  pub list : ℕ
  pub cur : ℕ
  pub forward : Bool

abbrev pub set_next : Links → ℕ → ℕ → Links
set_next l p v = record l { next = update l.next p v }

abbrev pub set_prev : Links → ℕ → ℕ → Links
set_prev l p v = record l { prev = update l.prev p v }

pub init : Links → ℕ → Links
init l list = set_next (set_prev l list list) list list

pub item_init : Links → ℕ → Links
item_init l item = set_next (set_prev l item 0) item 0

abbrev pub is_empty : Links → ℕ → Bool
is_empty l list = l.next list == list

pub item_is_linked : Links → ℕ → Bool
item_is_linked l item = non_null (l.next item) && non_null (l.prev item)

-- am_dlist_next and am_dlist_prev
pub next_item : Links → (list item : ℕ) → Checked ℕ
next_item l list item = do
  check (non_null item)
  ok (if list == l.next item then 0 else l.next item)

pub prev_item : Links → (list item : ℕ) → Checked ℕ
prev_item l list item = do
  check (non_null item)
  ok (if list == l.prev item then 0 else l.prev item)

pub push_after : Links → (item new_item : ℕ) → Checked Links
push_after l item new_item = do
  check (non_null item)
  check (non_null (l.next item))
  check (non_null new_item)
  let l1 = set_next l new_item (l.next item)
  let l2 = set_prev l1 new_item item
  let l3 = set_prev l2 (l2.next item) new_item
  ok (set_next l3 item new_item)

pub push_before : Links → (item new_item : ℕ) → Checked Links
push_before l item new_item = do
  check (non_null item)
  check (non_null (l.prev item))
  check (non_null new_item)
  let l1 = set_next l new_item item
  let l2 = set_prev l1 new_item (l1.prev item)
  let l3 = set_next l2 (l2.prev item) new_item
  ok (set_prev l3 item new_item)

pub pop : Links → ℕ → Checked Links
pop l item = do
  check (non_null item)
  check (non_null (l.next item))
  check (non_null (l.prev item))
  let l1 = set_prev l (l.next item) (l.prev item)
  let l2 = set_next l1 (l1.prev item) (l1.next item)
  ok (set_next (set_prev l2 item 0) item 0)

pub push_front : Links → (list item : ℕ) → Checked Links
push_front l list item = do check (non_null item); push_after l list item

pub push_back : Links → (list item : ℕ) → Checked Links
push_back l list item = do check (non_null item); push_before l list item

-- The first part of the result is the item, or NULL.
pub pop_front : Links → ℕ → Checked (ℕ × Links)
pop_front l list =
    let some = do l' ← pop l (l.next list); ok (l.next list, l')
    in if is_empty l list then ok (0, l) else some

pub pop_back : Links → ℕ → Checked (ℕ × Links)
pop_back l list =
    let some = do l' ← pop l (l.prev list); ok (l.prev list, l')
    in if is_empty l list then ok (0, l) else some

pub peek_front : Links → ℕ → ℕ
peek_front l list = if is_empty l list then 0 else l.next list

pub peek_back : Links → ℕ → ℕ
peek_back l list = if is_empty l list then 0 else l.prev list

-- The walk of am_dlist_find, on fuel.
pub find_loop : ℕ → Links → (list item : ℕ) → (ℕ → Bool) → Checked ℕ
find_loop zero l list item is_found = fault
find_loop (suc fuel) l list item is_found =
    let rest = find_loop fuel l list (l.next item) is_found in
    if item == list then ok 0 else (if is_found item then ok item else rest)

pub find : ℕ → Links → ℕ → (ℕ → Bool) → Checked ℕ
find fuel l list is_found = find_loop fuel l list (l.next list) is_found

-- The walk of am_dlist_owns, on fuel.
pub owns_loop : ℕ → Links → (list next item : ℕ) → Checked Bool
owns_loop zero l list next item = fault
owns_loop (suc fuel) l list next item =
    let rest = owns_loop fuel l list (l.next next) item in
    if next == list then ok false else (if item == next then ok true else rest)

pub owns : ℕ → Links → (list item : ℕ) → Checked Bool
owns fuel l list item = do check (non_null item); owns_loop fuel l list (l.next list) item

pub iterator_init : ℕ → Bool → Iterator
iterator_init list forward = record { list = list; cur = list; forward = forward }

pub iterator_next : Links → Iterator → Checked (ℕ × Iterator)
iterator_next l it = do
  check (non_null it.list)
  check (non_null it.cur)
  let p = if it.forward then l.next it.cur else l.prev it.cur
  let cur = if p == it.list then 0 else p
  ok (cur, record it { cur = cur })

pub iterator_pop : Links → Iterator → Checked (ℕ × Links × Iterator)
iterator_pop l it = do
  check (not (it.cur == it.list))
  let cur = if it.forward then l.prev it.cur else l.next it.cur
  l' ← pop l it.cur
  ok (it.cur, l', record it { cur = cur })
