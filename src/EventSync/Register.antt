-- ===== src/EventSync/Register.antt =====
-- am_event_sync_register: which place of the table a handler gets.
use amast.Common.{
  ℕ, zero, suc, ◌+◌, ◌<◌, ◌≤◌, ◌≡◌, ◌≢◌, refl, ap, subst, ◌∙◌, arith, true, ◌==◌, Returns,
  Returns-map, Bool-cases, ==_iff, inl, inr,
}
use amast.Slist.{non_null}
use amast.EventAsync.{handlers_num_max}
use amast.EventSync.{SyncHub, set_handler, register, register_loop}

-- What a registration gives: the first free place from `from` on, and the handler in it.
pub record Registered (hub : SyncHub) (from fn ctx : ℕ) (r : ℕ × SyncHub) : Type 0 where
  pub was_free : (hub.handlers r.0).fn ≡ 0
  pub first : (k : ℕ) → from ≤ k → k < r.0 → (hub.handlers k).fn ≢ 0
  pub in_table : r.0 < handlers_num_max
  pub after : r.1 ≡ set_handler hub r.0 (record { fn = fn; ctx = ctx })

behind :
    (i j : ℕ) (hub : SyncHub)
    → i ≤ j
    → (hub.handlers i).fn ≢ 0
    → (hub.handlers j).fn ≡ 0
    → suc i ≤ j
behind i j hub le taken free = elim (Bool-cases (i == j)) [
  | inl e ↦ absurd (taken (ap (λ k. (hub.handlers k).fn) ((==_iff i j).0 e) ∙ free))
  | inr e ↦ ground arith
]

earlier :
    (i k : ℕ) (hub : SyncHub)
    → (hub.handlers i).fn ≢ 0
    → i ≤ k
    → (suc i ≤ k → (hub.handlers k).fn ≢ 0)
    → (hub.handlers k).fn ≢ 0
earlier i k hub taken from later = elim (Bool-cases (i == k)) [
  | inl e ↦ subst (λ m. (hub.handlers m).fn ≢ 0) ((==_iff i k).0 e) taken
  | inr e ↦ later (ground arith)
]

register_loop-Registered :
    (n i j : ℕ) (hub : SyncHub) (fn ctx : ℕ)
    → i + n ≡ handlers_num_max
    → i ≤ j
    → j < handlers_num_max
    → (hub.handlers j).fn ≡ 0
    → Returns (Registered hub i fn ctx) (register_loop n i hub fn ctx)
unfolding register_loop
register_loop-Registered zero i j hub fn ctx e le lt free = absurd (omega arith)
register_loop-Registered (suc n) i j hub fn ctx e le lt free =
    elim (Bool-cases (0 == (hub.handlers i).fn)) [
      | inl z ↦ rw z (record {
        was_free = ground arith;
        first = λ k from k_lt. absurd (omega arith);
        in_table = omega arith;
        after = refl;
      })
      | inr b ↦
          let taken : (hub.handlers i).fn ≢ 0 = ground arith in
          let next = behind i j hub le taken free in
          rw b (
            Returns-map (Registered hub (suc i) fn ctx) (Registered hub i fn ctx)
              (register_loop n (suc i) hub fn ctx)
              (λ r s. record {
                was_free = s.was_free;
                first = λ k from k_lt. earlier i k hub taken from λ h. s.first k h k_lt;
                in_table = s.in_table;
                after = s.after;
              })
              (register_loop-Registered n (suc i) j hub fn ctx (omega arith) next lt free))
    ]

-- A hub with a free place takes a handler: the handler gets the first free place of the table,
-- which is its number, and nothing else changes.
pub register-Registered :
    (hub : SyncHub) (fn ctx j : ℕ)
    → fn ≢ 0
    → j < handlers_num_max
    → (hub.handlers j).fn ≡ 0
    → Returns (Registered hub 0 fn ctx) (register hub fn ctx)
unfolding register
register-Registered hub fn ctx j ne lt free =
    let some_fn : non_null fn ≡ true = ground arith in
    rw some_fn (register_loop-Registered handlers_num_max 0 j hub fn ctx refl (omega arith) lt free)
