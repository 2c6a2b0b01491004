-- ===== src/RateLimit/Window.antt =====
-- How many attempts the limiter of crates/core/src/ratelimit.rs lets through, and when again.
use notespace.Base.{
  ℕ, suc, ◌+◌, ◌*◌, ◌-◌, ◌/◌, ◌≤◌, ◌<◌, true, List, [], ◌∷◌, All, Option, none, some, ◌≡◌, ap,
  arith, if◌then◌else◌, leb, max, min, length,
}
use notespace.Model.{Timestamp}
use notespace.RateLimit.{
  Attempts, Limit, Decision, allow, deny, first, in_window, check, allowed, retry_after_secs,
}

-- What the store holds after an attempt that failed.
abbrev pub recorded : Option Attempts → Decision → Option Attempts
recorded state (allow attempts) = some attempts
recorded state (deny ms) = state

-- Failed attempts at the given times, one after the other: how many the limiter let through.
unfoldable pub let_through : Limit → Option Attempts → List Timestamp → ℕ
let_through limit state [] = 0
let_through limit state (t ∷ times) =
    let d = check limit state t in
    let rest = let_through limit (recorded state d) times in if allowed d then suc rest else rest

abbrev pub most : Limit → ℕ
most limit = max 1 limit.max

-- Every time is at or after the first and before the second.
abbrev pub Within : Timestamp → Timestamp → List Timestamp → Type 0
Within lo hi times = All (λ t. (lo ≤ t) × (t < hi)) times

same_window :
    (limit : Limit) (s : Attempts) (lo : Timestamp) (times : List Timestamp)
    → lo ≤ s.window_start
    → Within lo (lo + limit.window_ms) times
    → let_through limit (some s) times ≤ most limit - s.count
unfolding let_through check in_window
same_window limit s lo [] h w = omega arith
same_window limit s lo (t ∷ times) h (now, later) = ground (
  arith,
  same_window limit s lo times h later,
  same_window limit (record s { count = s.count + 1 }) lo times h later,
)

old_window :
    (limit : Limit) (s : Attempts) (lo : Timestamp) (times : List Timestamp)
    → Within lo (lo + limit.window_ms) times
    → let_through limit (some s) times ≤ (most limit - s.count) + most limit
unfolding let_through check in_window
old_window limit s lo [] w = omega arith
old_window limit s lo (t ∷ times) (now, later) = ground (
  arith,
  old_window limit s lo times later,
  old_window limit (record s { count = s.count + 1 }) lo times later,
  same_window limit (first t) lo times now.0 later,
)

-- In any stretch of one window's length at most twice the limit is let through, from whatever is
-- stored before; a limit of zero lets through what a limit of one does.
pub let_through_at_most :
    (limit : Limit) (state : Option Attempts) (lo : Timestamp) (times : List Timestamp)
    → Within lo (lo + limit.window_ms) times
    → let_through limit state times ≤ 2 * most limit
unfolding let_through check
let_through_at_most limit none lo [] w = omega arith
let_through_at_most limit none lo (t ∷ times) (now, later) =
    omega (arith, same_window limit (first t) lo times now.0 later)
let_through_at_most limit (some s) lo times w = omega (arith, old_window limit s lo times w)

live_window :
    (limit : Limit) (s : Attempts) (times : List Timestamp)
    → Within s.window_start (s.window_start + limit.window_ms) times
    → let_through limit (some s) times ≡ min (length times) (limit.max - s.count)
unfolding let_through check in_window
live_window limit s [] w = omega arith
live_window limit s (t ∷ times) (now, later) = ground (
  arith,
  live_window limit s times later,
  live_window limit (record s { count = s.count + 1 }) times later,
)

-- Nobody is stopped early: of the attempts in the window that the first one opens, where nothing
-- is stored before, as many are let through as the limit says, or all if they are fewer; a limit
-- of zero lets one through.
pub let_through-first :
    (limit : Limit) (t : Timestamp) (times : List Timestamp)
    → Within t (t + limit.window_ms) times
    → let_through limit none (t ∷ times) ≡ suc (min (length times) (limit.max - 1))
unfolding let_through check
let_through-first limit t times w = ap suc (live_window limit (first t) times w)

-- A denial says how long to wait: with the record unchanged, an attempt at any time is
-- allowed exactly when that wait is over, and it is over after the whole seconds that are reported.
pub check-deny :
    (limit : Limit) (s : Attempts) (now later : Timestamp) {ms : ℕ}
    → check limit (some s) now ≡ deny ms
    → (allowed (check limit (some s) later) ≡ leb (now + ms) later)
      × (allowed (check limit (some s) (now + (ms + 999) / 1000 * 1000)) ≡ true)
      × (retry_after_secs (check limit (some s) now) ≡ some ((ms + 999) / 1000))
unfolding check in_window
check-deny limit s now later h = (ground arith, ground arith, ground arith)
