-- ===== src/Auth/RateLimit/Tests.antt =====
-- Runs of the limiter, and the theorems at a limit of two requests in a window of 100 ns.
use nzb_indexer.Base.{◌≡◌, refl, [], ◌∷◌, pos}
use nzb_indexer.Base.Dict.{lookup, insert}
use nzb_indexer.Auth.RateLimit.{RateLimiter, new_rate_limiter, allow, cleanup}
use nzb_indexer.Auth.RateLimit.Windows.{granted}

abbrev fresh : RateLimiter
fresh = new_rate_limiter (pos 100)

program : Unit {0}
unfolding new_rate_limiter allow cleanup granted lookup insert
program = tt

two_of_three : granted fresh "k" 2 (5 ∷ 6 ∷ 7 ∷ []) ≡ 2
unfolding program
two_of_three = refl

next_window : granted fresh "k" 2 (5 ∷ 6 ∷ 7 ∷ 106 ∷ []) ≡ 3
unfolding program
next_window = refl

abbrev used_once : RateLimiter
used_once = (allow fresh "k" (pos 2) 5).0
