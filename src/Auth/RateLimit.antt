-- ===== src/Auth/RateLimit.antt =====
-- internal/auth/ratelimit.go: a fixed window of requests for each key. A method holds the mutex for
-- its whole body; the clock's reading is its argument, in nanoseconds.
pub mod Windows
mod Cleanup
mod Tests
use Prim.Native.String.{String}
use nzb_indexer.Base.{
  ℕ, ◌+◌, ◌-◌, Bool, true, false, Option, none, some, List, [], ◌∷◌, ltb, leb, if◌then◌else◌, ℤ,
  pos, negsuc, positive_or, pos_part, lebℤ,
}
use nzb_indexer.Base.Dict.{lookup, insert}

pub record Window : Type 0 where
  pub count : ℕ
  pub reset : ℕ

pub record RateLimiter : Type 0 where
  pub window : ℕ
  pub windows : List (String × Window)

-- An hour if the duration is not positive.
unfoldable pub new_rate_limiter : ℤ → RateLimiter
new_rate_limiter window_dur = record { window = positive_or 3600000000000 window_dur; windows = [] }

-- The key's window, or a new one if there is none or `now` is after its reset.
abbrev pub current : RateLimiter → Option Window → ℕ → Window
current r none now = record { count = 0; reset = now + r.window }
current r (some w) now = if ltb w.reset now then record { count = 0; reset = now + r.window } else w

-- The answer: permitted, remaining (-1 without a limit), and the reset (none for the zero time).
pub record Answer : Type 0 where
  pub allowed : Bool
  pub remaining : ℤ
  pub reset_at : Option ℕ

-- The call under a limit that is positive.
allow_limited : RateLimiter → String → ℕ → ℕ → RateLimiter × Answer
allow_limited r key limit now =
    let w = current r (lookup key r.windows) now in
    if leb limit w.count
    then (
      record r { windows = insert key w r.windows },
      record { allowed = false; remaining = pos 0; reset_at = some w.reset },
    )
    else (
      record r { windows = insert key (record w { count = w.count + 1 }) r.windows },
      record { allowed = true; remaining = pos (limit - (w.count + 1)); reset_at = some w.reset },
    )

unfoldable pub allow : RateLimiter → String → ℤ → ℕ → RateLimiter × Answer
unfolding allow_limited
allow r key limit now =
    if lebℤ limit (pos 0)
    then (r, record { allowed = true; remaining = negsuc 0; reset_at = none })
    else allow_limited r key (pos_part limit) now

-- The loop of Cleanup.
unfoldable pub drop_expired : ℕ → List (String × Window) → List (String × Window)
drop_expired now [] = []
drop_expired now ((k, w) ∷ m) =
    let rest = drop_expired now m in if ltb w.reset now then rest else (k, w) ∷ rest

unfoldable pub cleanup : RateLimiter → ℕ → RateLimiter
unfolding drop_expired
cleanup r now = record r { windows = drop_expired now r.windows }
