-- ===== src/Ao/Schedule.antt =====
-- am_ao_run_all: which active object is served, and that the loop ends.
use amast.Common.{
  ℕ, zero, suc, ◌<◌, ◌≤◌, ◌≡◌, refl, ap, sym, subst, ◌∙◌, arith, Bool, true, false, not, ◌&&◌, ◌==◌,
  ltb, if◌then◌else◌, Checked, ok, check, Returns-value, Bool-cases, ==_iff, inl, inr, Option, none,
  some,
}
use amast.Slist.{non_null}
use amast.Bit.{BitU64, u64_has, u64_is_empty, u64_msb, u64_clear}
use amast.Bit.Valid as Bits
use amast.Bit.Change.{u64_clear-takes}
use amast.Event.{World}
use amast.EventQueue.{nbusy, is_empty}
use amast.EventQueue.Valid as Queues
use amast.EventAsync.{AsyncState}
use amast.Ao.{Ao, Core, System}
use amast.Ao.Port.{run_loop, run_all, after_init, serve, idle}
use amast.Ao.Consistent.{IsConsistent}

-- An active object is at the priority, and its queue holds an event.
abbrev pub is_busy : (ℕ → ℕ) → (ℕ → Ao) → ℕ → Bool
is_busy aos objects i = non_null (aos i) && not (nbusy (objects (aos i)).event_queue == 0)

-- The highest priority below `n` whose active object has an event.
unfoldable pub highest : ℕ → (ℕ → ℕ) → (ℕ → Ao) → Option ℕ
highest zero aos objects = none
highest (suc n) aos objects =
    let below = highest n aos objects in if is_busy aos objects n then some n else below

highest-none :
    (n : ℕ) (aos : ℕ → ℕ) (objects : ℕ → Ao)
    → ((i : ℕ) → i < n → is_busy aos objects i ≡ false)
    → highest n aos objects ≡ none
unfolding highest
highest-none zero aos objects h = refl
highest-none (suc n) aos objects h =
    rw (h n (omega arith)) (highest-none n aos objects λ i lt. h i (omega arith))

-- Priorities at which nothing is to do do not count.
highest-skip :
    (m n : ℕ) (aos : ℕ → ℕ) (objects : ℕ → Ao)
    → m ≤ n
    → ((i : ℕ) → m ≤ i → i < n → is_busy aos objects i ≡ false)
    → highest n aos objects ≡ highest m aos objects
unfolding highest
highest-skip m zero aos objects le h = let z : m ≡ 0 = omega arith in rw z refl
highest-skip m (suc n) aos objects le h = elim (Bool-cases (m == suc n)) [
  | inl e ↦ ap (λ k. highest k aos objects) (sym ((==_iff m (suc n)).0 e))
  | inr e ↦
      let m_le : m ≤ n = ground arith in
      rw (h n m_le (omega arith)) (highest-skip m n aos objects m_le λ i a b. h i a (omega arith))
]

module _ {U : Type 0} where
  -- Without its bit no active object is busy.
  not_busy :
      (core : Core U) (i : ℕ)
      → IsConsistent core
      → i < 64
      → u64_has core.ready_aos i ≡ false
      → is_busy core.me.aos core.objects i ≡ false
  not_busy core i c lt h = ground (arith, c.awake i lt)

  differs :
      (core : Core U) (m i : ℕ)
      → nbusy (core.objects (core.me.aos m)).event_queue ≡ 0
      → 0 < nbusy (core.objects (core.me.aos i)).event_queue
      → (m == i) ≡ false
  differs core m i no_event busy = elim (Bool-cases (m == i)) [
    | inl e ↦
        let same : m ≡ i = (==_iff m i).0 e in
        let z : nbusy (core.objects (core.me.aos i)).event_queue ≡ 0 =
          subst (λ k. nbusy (core.objects (core.me.aos k)).event_queue ≡ 0) same no_event in
        absurd (omega arith)
    | inr e ↦ e
  ]

  -- Clearing the bit of an active object without events keeps the invariant.
  clear-IsConsistent :
      (core : Core U) (m : ℕ) (ready : BitU64)
      → IsConsistent core
      → m < 64
      → nbusy (core.objects (core.me.aos m)).event_queue ≡ 0
      → Bits.IsValid ready
      → ((n : ℕ) → n < 64 → u64_has ready n ≡ (not (m == n) && u64_has core.ready_aos n))
      → IsConsistent (record core { ready_aos = ready })
  clear-IsConsistent core m ready c lt no_event valid bits = record {
    ready = valid;
    own_prio = c.own_prio;
    has_task = c.has_task;
    queue = c.queue;
    awake = λ i i_lt ne busy.
        let old = c.awake i i_lt ne busy in
        let other = differs core m i no_event busy in bits i i_lt ∙ ground arith;
    known = λ i i_lt h.
        let old : u64_has core.ready_aos i ≡ true = ground (arith, bits i i_lt) in
        c.known i i_lt old;
  }

module _ {U : Type 0} (own_id : U → ℕ) (init_wait on_idle : U → U)
    (user : (fn ctx event : ℕ) → System U → Checked (System U)) where
  -- the round that ends am_ao_run_all: for the active object at the priority found, or an idle one
  abbrev pub last_round : Option ℕ → System U → Checked (Bool × System U)
  last_round none sys = ok (idle own_id init_wait on_idle user sys)
  last_round (some i) (w, async, core) =
      serve own_id init_wait on_idle user (core.me.aos i) (w, async, core)

  run_loop-highest :
      (fuel k : ℕ) (w : World) (async : AsyncState) (core : Core U)
      → IsConsistent core
      → k ≤ 64
      → k < fuel
      → ((n : ℕ) → k ≤ n → n < 64 → u64_has core.ready_aos n ≡ false)
      → (ready : BitU64) × IsConsistent (record core { ready_aos = ready })
        × (run_loop own_id init_wait on_idle user fuel (w, async, core)
            ≡ last_round
                (highest k core.me.aos core.objects)
                (w, async, record core { ready_aos = ready }))
  unfolding run_loop highest
  run_loop-highest zero k w async core c le enough above = absurd (omega arith)
  run_loop-highest (suc fuel) k w async core c le enough above =
      elim (Bool-cases (u64_is_empty core.ready_aos)) [
        | inl e ↦
            let no_bit = (Bits.u64_is_empty_iff core.ready_aos c.ready).0 e in
            let idle_all =
              highest-none k core.me.aos core.objects
                λ i lt. not_busy core i c (omega arith) (no_bit i (omega arith)) in
            (core.ready_aos, c, rw (e, idle_all) refl)
        | inr e ↦
            let m = u64_msb core.ready_aos in
            let (m_lt, m_set, m_top) = Bits.u64_msb-greatest core.ready_aos c.ready e in
            let p = core.me.aos m in
            let q = (core.objects p).event_queue in
            let ne = c.known m m_lt m_set in
            let some_ao : non_null p ≡ true = ground arith in
            let own : ((core.objects p).prio.ao == m) ≡ true =
              ground (arith, c.own_prio m m_lt ne) in
            let v = c.queue m m_lt ne in
            let m_below : m < k = below m m_lt m_set in
            let skip =
              highest-skip (suc m) k core.me.aos core.objects m_below
                λ i a b. not_busy core i c (omega arith) (m_top i (omega arith) (omega arith)) in
            elim (Bool-cases (nbusy q == 0)) [
              | inl z ↦
                  let no_event : nbusy q ≡ 0 = (==_iff (nbusy q) 0).0 z in
                  let empty : is_empty q ≡ true = Queues.is_empty_iff q v ∙ z in
                  let here : is_busy core.me.aos core.objects m ≡ false = ground arith in
                  let found : highest k core.me.aos core.objects
                      ≡ highest m core.me.aos core.objects =
                    skip ∙ rw here refl in
                  let (ready, run, (valid, bits)) =
                    Returns-value _ (u64_clear core.ready_aos m)
                      (u64_clear-takes core.ready_aos m c.ready m_lt) in
                  let c' = clear-IsConsistent core m ready c m_lt no_event valid bits in
                  let cleared : Core U = record core { ready_aos = ready } in
                  let (ready', c2, rest) =
                    run_loop-highest fuel m w async cleared c' (omega arith) (omega arith)
                      λ n at lt. elim (Bool-cases (m == n)) [
                        | inl same ↦ bits n lt ∙ ground arith
                        | inr other ↦ bits n lt ∙ ground (arith, m_top n (ground arith) lt)
                      ] in
                  (
                    ready',
                    c2,
                    rw (e, some_ao, own, ap check v.ready, empty, found, c.own_prio m m_lt ne, run)
                        rest,
                  )
              | inr b ↦
                  let some_event : is_empty q ≡ false = Queues.is_empty_iff q v ∙ b in
                  let here : is_busy core.me.aos core.objects m ≡ true = ground arith in
                  let found : highest k core.me.aos core.objects ≡ some m = skip ∙ rw here refl in
                  (
                    core.ready_aos,
                    c,
                    rw (e, some_ao, own, ap check v.ready, some_event, found) refl,
                  )
            ]
      ]
    where
      below : (m : ℕ) → m < 64 → u64_has core.ready_aos m ≡ true → m < k
      below m lt set = elim (Bool-cases (ltb m k)) [
        | inl e ↦ ground arith
        | inr e ↦ absurd (ground (arith, above m (ground arith) lt))
      ]

  -- am_ao_run_all ends, and its last round is for the active object with the highest priority
  -- among those whose queues hold an event; if there is none, it is an idle round. Until then only
  -- the set of ready active objects has changed, in which every active object that has an event
  -- still stands.
  pub run_all-highest :
      (w : World) (async : AsyncState) (core : Core U)
      → IsConsistent core
      → let started = after_init own_id init_wait on_idle user core in
        (ready : BitU64) × IsConsistent (record started { ready_aos = ready })
        × (run_all own_id init_wait on_idle user (w, async, core)
            ≡ last_round
                (highest 64 core.me.aos core.objects)
                (w, async, record started { ready_aos = ready }))
  unfolding run_all
  run_all-highest w async core c =
      let started = after_init own_id init_wait on_idle user core in
      let c' : IsConsistent started = record {
        ready = c.ready;
        own_prio = c.own_prio;
        has_task = c.has_task;
        queue = c.queue;
        awake = c.awake;
        known = c.known;
      } in
      run_loop-highest 65 64 w async started c' (omega arith) (omega arith)
        λ n le lt. absurd (omega arith)
