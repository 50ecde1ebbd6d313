-- ===== src/Ao/Publish.antt =====
-- am_ao_publish_exclude_x: what reaches the queues of the subscribed active objects.
use amast.Common.{
  ℕ, zero, suc, ◌+◌, ◌/◌, ◌%◌, ◌<◌, ◌≤◌, ◌≡◌, ◌≢◌, ◌⊎◌, refl, ap, sym, ◌∙◌, arith, Bool, true,
  false, not, ◌&&◌, ◌||◌, ◌==◌, ltb, if◌then◌else◌, Returns, Returns-map, Bool-cases, ==_iff, inl,
  inr, List, [], ◌∷◌, ◌++◌, length, update-cases, has_bit,
}
use amast.Slist.{non_null}
use amast.Bit.{BitU64}
use amast.Event.{World, is_static, is_intact, ref_counter_max}
use amast.EventQueue.{EventQueue, Policy, contents}
use amast.EventQueue.Push.{IsPushable, held, queued}
use amast.EventAsync.{AsyncState, is_excluded}
use amast.EventLists.{subscribers}
use amast.EventAsync.Publish.{receivers, call_each}
use amast.Ao.{Ao, Core, set_queue, event_handler}
use amast.Ao.Consistent.{IsConsistent, same_prio}
use amast.Ao.Deliver.{IsOpen, IsWired, event_handler-Outcome}

-- The memory with `n` more holders of the event, taken one after the other.
abbrev pub held_times : ℕ → World → ℕ → World
held_times zero w event = w
held_times (suc n) w event = held_times n (held w event) event

-- An event that can be queued `n` times.
pub record IsPushableTimes (n : ℕ) (w : World) (event : ℕ) : Type 0 where
  pub non_null : event ≢ 0
  pub header :
      (is_static (w.event event) ≡ true)
      ⊎ ((is_static (w.event event) ≡ false)
          × (is_intact (w.event event) ≡ true)
          × ((w.event event).ref_counter + n ≤ ref_counter_max))

once : (n : ℕ) (w : World) (event : ℕ) → IsPushableTimes (suc n) w event → IsPushable w event
once n w event p = record { non_null = p.non_null; header = ground (arith, p.header) }

after_one :
    (n : ℕ) (w : World) (event : ℕ)
    → IsPushableTimes (suc n) w event
    → IsPushableTimes n (held w event) event
after_one n w event p = record { non_null = p.non_null; header = ground (arith, p.header) }

abbrev pub is_member : ℕ → List ℕ → Bool
is_member i [] = false
is_member i (x ∷ xs) = x == i || is_member i xs

-- a list in descending order, below a bound
abbrev pub Descends : ℕ → List ℕ → Type 0
Descends n [] = Unit {0}
Descends n (x ∷ xs) = (x < n) × Descends x xs

Descends-le : (n m : ℕ) (xs : List ℕ) → n ≤ m → Descends n xs → Descends m xs
Descends-le n m [] le d = tt
Descends-le n m (x ∷ xs) le d = (omega (arith, d.0), d.1)

either_Descends :
    (b : Bool) (n : ℕ) (xs ys : List ℕ)
    → Descends n xs
    → Descends n ys
    → Descends n (if b then xs else ys)
either_Descends true n xs ys d e = d
either_Descends false n xs ys d e = e

pub subscribers-Descends : (n : ℕ) (sub : ℕ → ℕ) → Descends n (subscribers n sub)
unfolding subscribers
subscribers-Descends zero sub = tt
subscribers-Descends (suc n) sub =
    let below = subscribers-Descends n sub in
    either_Descends (has_bit (sub (n / 8)) (n % 8)) (suc n) (n ∷ subscribers n sub)
      (subscribers n sub) (omega arith, below)
      (Descends-le n (suc n) (subscribers n sub) (omega arith) below)

pub receivers-Descends :
    (me : AsyncState) (policy : Policy) (n : ℕ) (inds : List ℕ)
    → Descends n inds
    → Descends n (receivers me policy inds)
unfolding receivers
receivers-Descends me policy n [] d = tt
receivers-Descends me policy n (x ∷ xs) d =
    let others = receivers-Descends me policy x xs d.1 in
    either_Descends (not (is_excluded policy x) && non_null (me.handlers x).fn) n
      (x ∷ receivers me policy xs) (receivers me policy xs) (d.0, others)
      (Descends-le x n (receivers me policy xs) (omega (arith, d.0)) others)

not_member : (n i : ℕ) (xs : List ℕ) → Descends n xs → n ≤ i → is_member i xs ≡ false
not_member n i [] d le = refl
not_member n i (x ∷ xs) d le = ground (arith, d.0, not_member x i xs d.1)

member_other : (k i : ℕ) (ks : List ℕ) → Descends k ks → is_member i ks ≡ true → k ≢ i
member_other k i ks d h e = ground (arith, not_member k i ks d)

is_member-either :
    (b : Bool) (x i : ℕ) (xs : List ℕ)
    → is_member i (if b then x ∷ xs else xs) ≡ ((x == i && b) || is_member i xs)
is_member-either true x i xs = ground arith
is_member-either false x i xs = ground arith

-- A test that is asked at `x` where that is `i` can be asked at `i`.
asked_there :
    (test : ℕ → Bool) (x i : ℕ) (b : Bool)
    → ((x == i && test x) || (b && test i)) ≡ ((x == i || b) && test i)
asked_there test x i b = elim (Bool-cases (x == i)) [
  | inl e ↦
      let same : test x ≡ test i = ap test ((==_iff x i).0 e) in rw (e, same) (both (test i) b)
  | inr e ↦ rw e refl
]
  where
    both : (t b : Bool) → (t || (b && t)) ≡ t
    both true b = refl
    both false b = ground arith

pub is_member-subscribers :
    (n : ℕ) (sub : ℕ → ℕ) (i : ℕ)
    → is_member i (subscribers n sub) ≡ (ltb i n && has_bit (sub (i / 8)) (i % 8))
unfolding subscribers
is_member-subscribers zero sub i = ground arith
is_member-subscribers (suc n) sub i =
    let test = λ (k : ℕ). has_bit (sub (k / 8)) (k % 8) in
    let range : ltb i (suc n) ≡ (n == i || ltb i n) = ground arith in
    is_member-either (test n) n i (subscribers n sub)
    ∙ ap (λ b. (n == i && test n) || b) (is_member-subscribers n sub i)
    ∙ asked_there test n i (ltb i n)
    ∙ ap (λ b. b && test i) (sym range)

pub is_member-receivers :
    (me : AsyncState) (policy : Policy) (inds : List ℕ) (i : ℕ)
    → is_member i (receivers me policy inds)
      ≡ (is_member i inds && (not (is_excluded policy i) && non_null (me.handlers i).fn))
unfolding receivers
is_member-receivers me policy [] i = refl
is_member-receivers me policy (x ∷ xs) i =
    let test = λ (k : ℕ). not (is_excluded policy k) && non_null (me.handlers k).fn in
    is_member-either (test x) x i (receivers me policy xs)
    ∙ ap (λ b. (x == i && test x) || b) (is_member-receivers me policy xs i)
    ∙ asked_there test x i (is_member i xs)

-- What a publication to the handlers of a list leaves.
pub record Spread {U : Type 0} (w : World) (core : Core U) (inds : List ℕ) (event : ℕ) (all : Bool)
    (r : Bool × World × Core U) : Type 0 where
  pub accepted : r.0 ≡ all
  pub world : r.1 ≡ held_times (length inds) w event
  pub consistent : IsConsistent r.2
  pub queues :
      (i : ℕ)
      → i < 64
      → core.me.aos i ≢ 0
      → contents (r.2.objects (core.me.aos i)).event_queue ≡ (
          let before = contents (core.objects (core.me.aos i)).event_queue in
          if is_member i inds then before ++ (event ∷ []) else before)

module _ {U : Type 0} where
  -- the state after a delivery at priority `k`
  abbrev after_delivery : Core U → ℕ → EventQueue → BitU64 → U → Core U
  after_delivery core k q ready rest = record (set_queue core (core.me.aos k) q) {
    ready_aos = ready;
    rest = rest;
  }

  after_delivery-IsWired :
      (async : AsyncState) (core : Core U) (k : ℕ) (q : EventQueue) (ready : BitU64) (rest : U)
      → IsWired async core
      → IsWired async (after_delivery core k q ready rest)
  after_delivery-IsWired async core k q ready rest h = record {
    lists = h.lists;
    wired = h.wired;
    only = h.only;
  }

  apart :
      (core : Core U) (k i : ℕ)
      → IsConsistent core
      → k < 64
      → i < 64
      → core.me.aos k ≢ 0
      → k ≢ i
      → core.me.aos k ≢ core.me.aos i
  apart core k i c k_lt i_lt ne other e = other (same_prio core k i c k_lt i_lt ne e)

  after_delivery-IsOpen :
      (core : Core U) (k : ℕ) (q : EventQueue) (ready : BitU64) (rest : U) (i margin : ℕ)
      → IsConsistent core
      → k < 64
      → core.me.aos k ≢ 0
      → k ≢ i
      → IsOpen core i margin
      → IsOpen (after_delivery core k q ready rest) i margin
  after_delivery-IsOpen core k q ready rest i margin c k_lt ne other h =
      let p_ne = apart core k i c k_lt h.prio_in ne other in
      let aos = core.me.aos in
      let ao : Ao = record (core.objects (aos k)) { event_queue = q } in
      record {
        prio_in = h.prio_in;
        present = h.present;
        running =
            update-cases (λ ao. ao.running ≡ true) core.objects (aos k) ao (aos i)
              (λ e. absurd (p_ne e)) λ e. h.running;
        room =
            update-cases (λ ao. margin < ao.event_queue.nfree) core.objects (aos k) ao (aos i)
              (λ e. absurd (p_ne e)) λ e. h.room;
      }

  -- The queue at priority `i`, after the delivery at `k` and those that follow.
  step_queue :
      (core : Core U) (k : ℕ) (q : EventQueue) (i event : ℕ) (ks : List ℕ)
      → Descends k ks
      → (k ≢ i → core.me.aos k ≢ core.me.aos i)
      → contents q ≡ contents (core.objects (core.me.aos k)).event_queue ++ (event ∷ [])
      → (let now =
            contents ((set_queue core (core.me.aos k) q).objects (core.me.aos i)).event_queue in
          if is_member i ks then now ++ (event ∷ []) else now)
        ≡ (let before = contents (core.objects (core.me.aos i)).event_queue in
            if is_member i (k ∷ ks) then before ++ (event ∷ []) else before)
  step_queue core k q i event ks d other queue = elim (Bool-cases (k == i)) [
    | inl e ↦
        let same : core.me.aos k ≡ core.me.aos i = ap core.me.aos ((==_iff k i).0 e) in
        let here : (core.me.aos k == core.me.aos i) ≡ true = ground arith in
        let once_only = not_member k i ks d (ground arith) in
        rw (here, once_only, e)
          (queue ∙ ap (λ p. contents (core.objects p).event_queue ++ (event ∷ [])) same)
    | inr e ↦
        let differ = other (ground arith) in
        let elsewhere : (core.me.aos k == core.me.aos i) ≡ false = ground arith in
        rw (elsewhere, e) refl
  ]

module _ {U : Type 0} (task_notify : ℕ → U → U) where
  pub call_each-Spread :
      (inds : List ℕ) (bound : ℕ) (async : AsyncState) (core : Core U) (w : World) (event : ℕ)
      (policy : Policy) (all : Bool)
      → policy.lifo ≡ false
      → Descends bound inds
      → IsConsistent core
      → IsWired async core
      → ((i : ℕ) → is_member i inds ≡ true → IsOpen core i policy.margin)
      → IsPushableTimes (length inds) w event
      → Returns
          (Spread w core inds event all)
          (call_each (event_handler task_notify) async inds event policy (all, w, core))
  unfolding call_each
  call_each-Spread [] bound async core w event policy all fifo d c wired ready p = record {
    accepted = refl;
    world = refl;
    consistent = c;
    queues = λ i lt ne. refl;
  }
  call_each-Spread (k ∷ ks) bound async core w event policy all fifo d c wired ready p =
      let at = ready k (ground arith) in
      let handler = async.handlers k in
      let (ctx, fn) = wired.wired k at.prio_in at.present in
      let o =
        event_handler-Outcome task_notify w core handler.fn k event policy c at
          (once (length ks) w event p) in
      let after = after_delivery core k o.new_queue o.new_ready o.new_rest in
      let rest =
        call_each-Spread ks k async after (held w event) event policy all fifo d.1 o.consistent
          (after_delivery-IsWired async core k o.new_queue o.new_ready o.new_rest wired)
          (λ i h.
            after_delivery-IsOpen core k o.new_queue o.new_ready o.new_rest i policy.margin c
              at.prio_in at.present (member_other k i ks d.1 h) (ready i (ground arith)))
          (after_one (length ks) w event p) in
      rw (ctx, o.run)
        (Returns-map (Spread (held w event) after ks event all) (Spread w core (k ∷ ks) event all)
          (call_each (event_handler task_notify) async ks event policy (all, held w event, after))
          (λ r s. record {
            accepted = s.accepted;
            world = s.world;
            consistent = s.consistent;
            queues = λ i lt ne.
                s.queues i lt ne
                ∙ step_queue core k o.new_queue i event ks d.1
                    (apart core k i c at.prio_in lt at.present)
                    (o.queue
                      ∙ ap (queued (contents (core.objects (core.me.aos k)).event_queue) event)
                          fifo);
          })
          rest)
