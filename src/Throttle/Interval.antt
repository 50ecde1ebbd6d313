-- ===== src/Throttle/Interval.antt =====
-- Which calls am_throttle_allow admits, on a clock that does not wrap.
use amast.Common.{
  ℕ, ◌+◌, ◌-◌, ◌%◌, ◌^◌, ◌≤◌, ◌<◌, ◌≡◌, refl, ap, arith, true, false, leb, if◌then◌else◌,
  Bool-cases, inl, inr, List, [], ◌∷◌,
}
use amast.Throttle.{Throttle, create, allow}

-- The times of the calls that answer true. The code sees a time as a uint32_t.
unfoldable pub allowed_times : Throttle → (interval_ms : ℕ) → (times : List ℕ) → List ℕ
unfolding allow
allowed_times throttle interval_ms [] = []
allowed_times throttle interval_ms (now ∷ times) =
    let answer = allow throttle interval_ms (now % 2 ^ 32) in
    let later = allowed_times (answer.0) interval_ms times in
    if answer.1 then now ∷ later else later

-- The times that are `interval` or more after the last one selected.
pub spaced_times : (interval last : ℕ) → List ℕ → List ℕ
spaced_times interval last [] = []
spaced_times interval last (now ∷ times) =
    if leb (last + interval) now
    then now ∷ spaced_times interval now times
    else spaced_times interval last times

-- Times in order, each at most `gap` after the one before.
abbrev pub Regular : (gap previous : ℕ) → List ℕ → Type 0
Regular gap previous [] = Unit
Regular gap previous (now ∷ times) =
    (previous ≤ now) × (now ≤ previous + gap) × Regular gap now times

-- The loop, after a call at `previous` and the last one admitted at `last`.
allowed_times-from :
    (interval gap last previous : ℕ) (times : List ℕ)
    → interval + gap < 2 ^ 32
    → last ≤ previous
    → previous ≤ last + interval
    → Regular gap previous times
    → allowed_times (record { last_ms = last % 2 ^ 32; initialized = true }) interval times
      ≡ spaced_times interval last times
unfolding allowed_times spaced_times
allowed_times-from interval gap last previous [] small order recent regular = refl
allowed_times-from interval gap last previous (now ∷ times) small order recent regular =
    let elapsed : (now % 2 ^ 32 + 2 ^ 32 - last % 2 ^ 32) % 2 ^ 32 ≡ now - last =
      omega (arith, regular.0, regular.1) in
    elim (Bool-cases (leb (last + interval) now)) [
      | inl late ↦
          let late' : leb interval (now - last) ≡ true = ground arith in
          rw (elapsed, late', late)
            (ap (λ ts. now ∷ ts)
              (allowed_times-from interval gap now now times small (omega arith) (omega arith)
                regular.2))
      | inr early ↦
          let early' : leb interval (now - last) ≡ false = ground (arith, regular.0) in
          rw (elapsed, early', early)
            (allowed_times-from interval gap last now times small (omega (arith, regular.0))
              (ground arith) regular.2)
    ]

-- Calls that come in order, each at most `gap` after the one before, with interval + gap below
-- 2^32, so that a clock of 32 bits may wrap around: am_throttle_allow answers true to the first,
-- and from then on to exactly those that come the interval or more after the last it admitted.
pub allowed_times-spaced_times :
    (interval gap first : ℕ) (times : List ℕ)
    → interval + gap < 2 ^ 32
    → Regular gap first times
    → allowed_times create interval (first ∷ times) ≡ first ∷ spaced_times interval first times
unfolding allowed_times
allowed_times-spaced_times interval gap first times small regular =
    ap (λ ts. first ∷ ts)
      (allowed_times-from interval gap first first times small (omega arith) (omega arith) regular)
