-- ===== src/Timer/Next.antt =====
-- am_timer_tick_iterator_next: which events a tick removes, which it counts down, and which is due.
use amast.Common.{
  ℕ, zero, suc, ◌+◌, ◌-◌, ◌≤◌, ◌<◌, ◌≡◌, ◌≢◌, refl, sym, ap, fun_ext, ◌∙◌, subst, arith, Bool,
  Bool-cases, inl, inr, true, false, ◌||◌, ltb, ◌==◌, Checked, ok, Returns, Returns-value,
  if◌then◌else◌, List, [], ◌∷◌, ◌++◌, length, length-append, append_assoc, append-nil, update,
}
use amast.Slist.{Links, Iterator, iterator_next, iterator_pop, non_null}
use amast.Slist.Chain.{
  Holds, Chain, Fresh, Distinct, Fresh-split, last, last-append, last-ne, non_null_true,
}
use amast.Slist.Remove.{iterator_pop-Holds}
use amast.Timer.{Clock, TimerEvent, set_event, remove, fire, next_loop, tick_iterator_next}

-- The iterator stands behind the last of `ps`, and `xs` are the running events in front of it.
pub record At (c : Clock) (ps xs : List ℕ) : Type 0 where
  pub list : Holds c.links c.timer.events (ps ++ xs)
  pub cur : c.timer.it_cur ≡ last c.timer.events.sentinel ps
  pub running : c.timer.running ≡ length (ps ++ xs)

-- what one tick does: the event that is due, or NULL; the events passed; the events left; and all
-- events after it
pub record Scan : Type 0 where
  pub due : ℕ
  pub passed : List ℕ
  pub left : List ℕ
  pub event : ℕ → TimerEvent

unfoldable pub scan : (ℕ → TimerEvent) → (ps xs : List ℕ) → Scan
scan event ps [] = record { due = 0; passed = ps; left = []; event = event }
scan event ps (x ∷ xs) =
    let e = event x in
    let gone = scan (update event x (record e { disarm_pending = false; owner = 0 })) ps xs in
    let later =
      scan (update event x (record e { oneshot_ticks = e.oneshot_ticks - 1 })) (ps ++ (x ∷ []))
        xs in
    let again : Scan = record {
      due = x;
      passed = ps ++ (x ∷ []);
      left = xs;
      event = update event x (record e { oneshot_ticks = e.interval_ticks });
    } in
    let once : Scan = record {
      due = x;
      passed = ps;
      left = xs;
      event = update event x (record e { oneshot_ticks = e.oneshot_ticks - 1; owner = 0 });
    } in
    if e.disarm_pending
    then gone
    else (if ltb 0 (e.oneshot_ticks - 1)
        then later
        else (if ltb 0 e.interval_ticks then again else once))

module _ (event : ℕ → TimerEvent) (ps xs : List ℕ) (x : ℕ) where
  scan-end : scan event ps [] ≡ record { due = 0; passed = ps; left = []; event = event }
  unfolding scan
  scan-end = refl

  abbrev ticked : TimerEvent
  ticked = record (event x) { oneshot_ticks = (event x).oneshot_ticks - 1 }

  scan-gone :
      (event x).disarm_pending ≡ true
      → scan event ps (x ∷ xs)
        ≡ scan (update event x (record (event x) { disarm_pending = false; owner = 0 })) ps xs
  unfolding scan
  scan-gone d = simp d refl

  scan-later :
      (event x).disarm_pending ≡ false
      → ltb 0 ((event x).oneshot_ticks - 1) ≡ true
      → scan event ps (x ∷ xs) ≡ scan (update event x ticked) (ps ++ (x ∷ [])) xs
  unfolding scan
  scan-later d l = simp (d, l) refl

  scan-again :
      (event x).disarm_pending ≡ false
      → ltb 0 ((event x).oneshot_ticks - 1) ≡ false
      → ltb 0 (event x).interval_ticks ≡ true
      → scan event ps (x ∷ xs) ≡ record {
        due = x;
        passed = ps ++ (x ∷ []);
        left = xs;
        event = update event x (record (event x) { oneshot_ticks = (event x).interval_ticks });
      }
  unfolding scan
  scan-again d l i = simp (d, l, i) refl

  scan-once :
      (event x).disarm_pending ≡ false
      → ltb 0 ((event x).oneshot_ticks - 1) ≡ false
      → ltb 0 (event x).interval_ticks ≡ false
      → scan event ps (x ∷ xs) ≡ record {
        due = x;
        passed = ps;
        left = xs;
        event = update event x (record ticked { owner = 0 });
      }
  unfolding scan
  scan-once d l i = simp (d, l, i) refl

-- the link behind the last of `ps`
Chain-at :
    (next : Links) (stop p x : ℕ) (ps xs : List ℕ)
    → Chain next stop p (ps ++ (x ∷ xs))
    → next (last p ps) ≡ x
Chain-at next stop p x [] xs c = c.0
Chain-at next stop p x (a ∷ ps) xs c = Chain-at next stop a x ps xs c.1

Chain-end :
    (next : Links) (stop p : ℕ) (ps : List ℕ) → Chain next stop p ps → next (last p ps) ≡ stop
Chain-end next stop p [] c = c
Chain-end next stop p (a ∷ ps) c = Chain-end next stop a ps c.1

==_refl : (a : ℕ) → (a == a) ≡ true
==_refl a = ground arith

update_self : {A : Type 0} (m : ℕ → A) (p : ℕ) (v : A) → update m p v p ≡ v
update_self m p v = ground arith

update-update :
    {A : Type 0} (m : ℕ → A) (p : ℕ) (u v : A) → update (update m p u) p v ≡ update m p v
update-update m p u v = fun_ext λ q. ground arith

-- the iterator moves on to the next running event
abbrev step : Clock → (ps : List ℕ) → (x : ℕ) → Clock
step c ps x = record c {
  timer = record c.timer { it_cur = x; it_prev = last c.timer.events.sentinel ps };
}

-- the event that the iterator is at is taken out
pub remove-At :
    (c : Clock) (ps xs : List ℕ) (x : ℕ)
    → Holds c.links c.timer.events (ps ++ (x ∷ xs))
    → c.timer.it_cur ≡ x
    → c.timer.it_prev ≡ last c.timer.events.sentinel ps
    → c.timer.running ≡ length (ps ++ (x ∷ xs))
    → Returns
        (λ c'. At c' ps xs × (c'.event ≡ update c.event x (record (c.event x) { owner = 0 })))
        (remove c x)
unfolding remove
remove-At c ps xs x h cur prev n =
    let t = c.timer in
    let it : Iterator = record { list = t.events; cur = x; prev = last t.events.sentinel ps } in
    let (r, popped, (p_x, holds, same, back, links)) =
      Returns-value _ (iterator_pop c.links it) (iterator_pop-Holds c.links t.events ps xs x h) in
    let count : t.running ≡ length (ps ++ xs) + 1 =
      omega (arith, n, length-append ps (x ∷ xs), length-append ps xs) in
    let some : ltb 0 t.running ≡ true = ground (arith, count) in
    rw (cur, prev, popped, some)
      (
        record {
          list = holds;
          cur = back ∙ ap (λ s. last s ps) (sym same);
          running = omega (arith, count);
        },
        refl,
      )

-- Every event that is not to be disarmed has a tick to go.
abbrev pub Armed : (ℕ → TimerEvent) → List ℕ → Type 0
Armed event [] = Unit {0}
Armed event (x ∷ xs) =
    (((event x).disarm_pending || ltb 0 (event x).oneshot_ticks) ≡ true) × Armed event xs

Armed-update :
    (event : ℕ → TimerEvent) (x : ℕ) (e : TimerEvent) (xs : List ℕ)
    → Fresh x xs
    → Armed event xs
    → Armed (update event x e) xs
Armed-update event x e [] f a = tt
Armed-update event x e (y ∷ xs) f a = (
  (let ne : (x == y) ≡ false = ground (arith, f.0) in rw ne a.0),
  Armed-update event x e xs f.1 a.1,
)

-- The call has done what `s` says.
pub record Scanned (s : Scan) (p : ℕ) (c : Clock) : Type 0 where
  pub due : p ≡ s.due
  pub event : c.event ≡ s.event
  pub list : Holds c.links c.timer.events (s.passed ++ s.left)
  pub running : c.timer.running ≡ length (s.passed ++ s.left)
  pub cur : s.due ≢ 0 → c.timer.it_cur ≡ last c.timer.events.sentinel s.passed

Distinct-fresh : (ps xs : List ℕ) (x : ℕ) → Distinct (ps ++ (x ∷ xs)) → Fresh x xs
Distinct-fresh [] xs x d = d.0
Distinct-fresh (a ∷ ps) xs x d = Distinct-fresh ps xs x d.1

-- at the end of the list
iterator_next-end :
    (c : Clock) (ps : List ℕ)
    → At c ps []
    → let t = c.timer in
      let s = t.events.sentinel in
      iterator_next c.links (record { list = t.events; cur = t.it_cur; prev = t.it_prev })
      ≡ ok (0, record { list = t.events; cur = s; prev = last s ps })
unfolding iterator_next
iterator_next-end c ps a =
    let s = c.timer.events.sentinel in
    let h = rw append-nil at a.list in
    let link = Chain-end c.links s s ps h.chain in
    let here = non_null_true _ (last-ne s ps h.non_null) in rw (a.cur, here, link, ==_refl s) refl

module _ (c : Clock) (ps : List ℕ) (x : ℕ) (xs : List ℕ) (a : At c ps (x ∷ xs)) where
  iterator_next-at :
      let t = c.timer in
      let s = t.events.sentinel in
      iterator_next c.links (record { list = t.events; cur = t.it_cur; prev = t.it_prev })
      ≡ ok (x, record { list = t.events; cur = x; prev = last s ps })
  unfolding iterator_next
  iterator_next-at =
      let s = c.timer.events.sentinel in
      let h = a.list in
      let link = Chain-at c.links s s x ps xs h.chain in
      let (y, z) = Fresh-split 0 ps (x ∷ xs) h.non_null.1 in
      let here = non_null_true _ (last-ne s ps (h.non_null.0, y)) in
      let (_, f) = Fresh-split s ps (x ∷ xs) h.distinct.0 in
      let inner : (x == s) ≡ false = ground (arith, f.0) in rw (a.cur, here, link, inner) refl

  item : non_null x ≡ true
  item =
      let (y, z) = Fresh-split 0 ps (x ∷ xs) a.list.non_null.1 in non_null_true x (λ e. z.0 (sym e))

  fresh : Fresh x xs
  fresh = Distinct-fresh ps xs x a.list.distinct.1

  -- an event that stays in the list is passed
  passed-At : (e : TimerEvent) → At (set_event (step c ps x) x e) (ps ++ (x ∷ [])) xs
  passed-At e = record {
    list = rw append_assoc a.list;
    cur = sym (last-append c.timer.events.sentinel ps (x ∷ []));
    running = rw append_assoc a.running;
  }

  -- an event that is taken out
  gone-At :
      (e : TimerEvent)
      → Returns
          (λ c'. At c' ps xs × (c'.event ≡ update c.event x (record e { owner = 0 })))
          (remove (set_event (step c ps x) x e) x)
  gone-At e =
      let d = set_event (step c ps x) x e in
      let (r, done, (at, ev)) =
        Returns-value _ (remove d x) (remove-At d ps xs x a.list refl refl a.running) in
      let twice = update-update c.event x e (record (update c.event x e x) { owner = 0 }) in
      let self : update c.event x e x ≡ e = update_self c.event x e in
      rw done (at, ev ∙ (twice ∙ ap (λ v. update c.event x (record v { owner = 0 })) self))

-- the event that is due
fire-Scanned :
    (c : Clock) (ps : List ℕ) (x : ℕ) (xs : List ℕ)
    → At c ps (x ∷ xs)
    → (c.event x).disarm_pending ≡ false
    → ltb 0 ((c.event x).oneshot_ticks - 1) ≡ false
    → Returns
        (λ (p, c'). Scanned (scan c.event ps (x ∷ xs)) p c')
        (fire (set_event (step c ps x) x (ticked c.event ps xs x)) x)
fire-Scanned c ps x xs a d l =
    let e = c.event x in
    let off = ticked c.event ps xs x in
    let self : update c.event x off x ≡ off = update_self c.event x off in
    elim (Bool-cases (ltb 0 e.interval_ticks)) [
      | inl i ↦
          let passed = passed-At c ps x xs a off in
          rw (scan-again c.event ps xs x d l i, self)
            (simp i (record {
              due = refl;
              event = update-update c.event x off _;
              list = passed.list;
              running = passed.running;
              cur = λ ne. passed.cur;
            }))
      | inr i ↦
          let (r, done, (at, ev)) =
            Returns-value _ (remove (set_event (step c ps x) x off) x) (gone-At c ps x xs a off) in
          rw (scan-once c.event ps xs x d l i, self)
            (simp (i, done)
              (record {
                due = refl;
                event = ev;
                list = at.list;
                running = at.running;
                cur = λ ne. at.cur;
              }))
    ]

Returns-else :
    {A : Type 0} (P : A → Type 0) (b : Bool) (m k : Checked A)
    → b ≡ false
    → Returns P k
    → Returns P (if b then m else k)
Returns-else P b m k e r = rw e r

-- With as many rounds as running events, and one more, the loop does what `scan` says.
next_loop-Scanned :
    (fuel nevents : ℕ) (c : Clock) (ps xs : List ℕ)
    → At c ps xs
    → Armed c.event xs
    → length xs ≤ nevents
    → length xs < fuel
    → Returns (λ (p, c'). Scanned (scan c.event ps xs) p c') (next_loop fuel c nevents)
unfolding next_loop
next_loop-Scanned zero n c ps xs a arm h f = absurd (omega arith)
next_loop-Scanned (suc fuel) n c ps [] a arm h f =
    rw (iterator_next-end c ps a, scan-end c.event ps [] 0)
      (record {
        due = refl;
        event = refl;
        list = a.list;
        running = a.running;
        cur = λ ne. absurd (ne refl);
      })
next_loop-Scanned (suc fuel) n c ps (x ∷ xs) a arm h f =
    let e = c.event x in
    let more : ltb 0 n ≡ true = ground arith in
    rw (iterator_next-at c ps x xs a, item c ps x xs a, more)
      (elim (Bool-cases e.disarm_pending) [
        | inl d ↦
            let off = record e { disarm_pending = false } in
            let (r, done, (at, ev)) =
              Returns-value _ (remove (set_event (step c ps x) x off) x)
                (gone-At c ps x xs a off) in
            let armed =
              subst (λ m. Armed m xs) (sym ev)
                (Armed-update c.event x (record off { owner = 0 }) xs (fresh c ps x xs a) arm.1) in
            let rest =
              subst
                (λ m. Returns (λ (p, c'). Scanned (scan m ps xs) p c') (next_loop fuel r (n - 1)))
                ev (next_loop-Scanned fuel (n - 1) r ps xs at armed (omega arith) (omega arith)) in
            rw (scan-gone c.event ps xs x d) (simp (d, done) rest)
        | inr d ↦
            let due : ltb 0 e.oneshot_ticks ≡ true = ground (arith, arm.0) in
            let later = ticked c.event ps xs x in
            let passed = passed-At c ps x xs a later in
            elim (Bool-cases (ltb 0 (e.oneshot_ticks - 1))) [
              | inl l ↦
                  let rest =
                    next_loop-Scanned fuel (n - 1) (set_event (step c ps x) x later)
                      (ps ++ (x ∷ [])) xs passed
                      (Armed-update c.event x later xs (fresh c ps x xs a) arm.1) (omega arith)
                      (omega arith) in
                  rw (scan-later c.event ps xs x d l)
                    (Returns-else _ e.disarm_pending _ _ d (rw (due, l) rest))
              | inr l ↦
                  Returns-else _ e.disarm_pending _ _ d (rw (due, l) (fire-Scanned c ps x xs a d l))
            ]
      ])

-- The running events `xs` are still to come in this tick, and each that is not to be disarmed has
-- a tick to go. Then am_timer_tick_iterator_next fails no assertion. It takes the events in order:
-- one to be disarmed leaves the list without an owner, one with more than a tick to go loses a
-- tick and is passed. It stops at the first other one and returns it, reloaded and still in the
-- list if it has an interval, or else without an owner and out of the list, and returns NULL if
-- there is none. The count of running events is the length of the list that is left.
pub tick_iterator_next-Scanned :
    (c : Clock) (ps xs : List ℕ)
    → At c ps xs
    → Armed c.event xs
    → Returns (λ (p, c'). Scanned (scan c.event ps xs) p c') (tick_iterator_next c)
unfolding tick_iterator_next
tick_iterator_next-Scanned c ps xs a arm =
    let n : length xs ≤ c.timer.running = omega (arith, a.running, length-append ps xs) in
    next_loop-Scanned (c.timer.running + 1) c.timer.running c ps xs a arm n (omega arith)
