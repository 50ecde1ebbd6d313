-- ===== src/Throttle.antt =====
-- libs/common/throttle.c. Time is uint32_t milliseconds, and differences wrap.
pub mod Interval
mod Examples
use amast.Common.{ℕ, ◌+◌, ◌-◌, ◌%◌, ◌^◌, Bool, true, false, leb, if◌then◌else◌}

-- struct am_throttle
pub record Throttle : Type 0 where
  pub last_ms : ℕ
  pub initialized : Bool

-- AM_THROTTLE_CREATE
abbrev pub create : Throttle
create = record { last_ms = 0; initialized = false }

-- am_throttle_allow
unfoldable pub allow : Throttle → (interval_ms now_ms : ℕ) → Throttle × Bool
allow throttle interval_ms now_ms =
    if throttle.initialized
    then if leb interval_ms ((now_ms + 2 ^ 32 - throttle.last_ms) % 2 ^ 32)
      then (record throttle { last_ms = now_ms }, true)
      else (throttle, false)
    else (record { last_ms = now_ms; initialized = true }, true)
