-- ===== src/RateLimit.antt =====
-- crates/core/src/ratelimit.rs: a counter per key over a fixed window.
pub mod Window
pub mod Examples
use notespace.Base.{
  ℕ, ◌+◌, ◌*◌, ◌-◌, ◌/◌, Bool, true, false, ◌&&◌, Option, none, some, if◌then◌else◌, ltb, leb,
}
use notespace.Model.{Timestamp}

pub record Attempts : Type 0 where
  pub window_start : Timestamp
  pub count : ℕ

abbrev pub first : Timestamp → Attempts
first now = record { window_start = now; count = 1 }

pub record Limit : Type 0 where
  pub max : ℕ
  pub window_ms : ℕ

abbrev pub per_identity : Limit
per_identity = record { max = 5; window_ms = 15 * 60 * 1000 }

abbrev pub per_client : Limit
per_client = record { max = 60; window_ms = 15 * 60 * 1000 }

pub data Decision : Type 0 where
  allow : Attempts → Decision
  deny : ℕ → Decision

-- `now - window_start < window_ms`, without the difference, which may be negative.
unfoldable pub in_window : Limit → Attempts → Timestamp → Bool
in_window limit s now = ltb now (s.window_start + limit.window_ms)

-- The arms of `check` for a stored record, tried in order.
check_stored : Limit → Attempts → Timestamp → Decision
unfolding in_window
check_stored limit s now =
    if in_window limit s now && leb limit.max s.count
    then deny (s.window_start + limit.window_ms - now)
    else if in_window limit s now
    then allow (record { window_start = s.window_start; count = s.count + 1 })
    else allow (first now)

unfoldable pub check : Limit → Option Attempts → Timestamp → Decision
unfolding check_stored
check limit none now = allow (first now)
check limit (some s) now = check_stored limit s now

abbrev pub allowed : Decision → Bool
allowed (allow next) = true
allowed (deny ms) = false

abbrev pub next : Decision → Option Attempts
next (allow attempts) = some attempts
next (deny ms) = none

abbrev pub retry_after_secs : Decision → Option ℕ
retry_after_secs (deny ms) = some ((ms + 999) / 1000)
retry_after_secs (allow attempts) = none
