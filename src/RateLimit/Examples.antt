-- ===== src/RateLimit/Examples.antt =====
-- A limit of three a minute, and the theorems of RateLimit/Window at it.
use notespace.Base.{◌*◌, ◌≤◌, [], ◌∷◌, some, ◌≡◌, refl, arith}
use notespace.RateLimit.{Attempts, Limit, check, in_window}
use notespace.RateLimit.Window.{let_through, most, let_through_at_most}

abbrev limit : Limit
limit = record { max = 3; window_ms = 60000 }

abbrev full : Attempts
full = record { window_start = 1000; count = 3 }

straddling :
    let_through limit
      (some (record { window_start = 1000; count = 1 }))
      (2000 ∷ 3000 ∷ 4000 ∷ 61000 ∷ 61001 ∷ 61002 ∷ 61003 ∷ [])
    ≡ 5
unfolding let_through check in_window
straddling = refl

let_through_at_most_example : let_through limit (some full) (1500 ∷ 61000 ∷ []) ≤ 2 * most limit
let_through_at_most_example =
    let_through_at_most limit (some full) 1500 (1500 ∷ 61000 ∷ []) (omega arith, (omega arith, tt))
