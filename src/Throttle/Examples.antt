-- ===== src/Throttle/Examples.antt =====
-- Calls around the end of the clock.
use amast.Common.{ℕ, ◌+◌, ◌^◌, ◌≡◌, refl, arith, List, [], ◌∷◌}
use amast.Throttle.{create, allow}
use amast.Throttle.Interval.{allowed_times, spaced_times, allowed_times-spaced_times}

abbrev later : List ℕ
later = 4294967290 ∷ 4294967299 ∷ 4294967300 ∷ 4294967310 ∷ []

later_run : allowed_times create 10 (4294967289 ∷ later) ≡ 4294967289 ∷ 4294967299 ∷ 4294967310 ∷ []
unfolding allowed_times allow
later_run = refl

-- After 2^32 milliseconds without a call the clock is where it was.
wrapped_run : allowed_times create 10 (5 ∷ (5 + 2 ^ 32) ∷ []) ≡ 5 ∷ []
unfolding allowed_times allow
wrapped_run = refl

allowed_times-spaced_times_example :
    allowed_times create 10 (4294967289 ∷ later) ≡ 4294967289 ∷ spaced_times 10 4294967289 later
allowed_times-spaced_times_example =
    allowed_times-spaced_times 10 10 4294967289 later (omega arith) (omega arith)
