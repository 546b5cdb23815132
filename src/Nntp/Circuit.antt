-- ===== src/Nntp/Circuit.antt =====
-- internal/nntp/circuit.go: the breaker of one news server. Each method holds the mutex for its
-- whole body, so it is one step on the record. Instants are nanoseconds on a clock that does not
-- precede its epoch, durations are int64 nanoseconds, and counters do not reach the width of an int.
pub mod Invariant
mod Probe
mod Backoff
mod Range
mod Tests
use nzb_indexer.Base.{
  ℕ, ◌+◌, ◌-◌, ◌*◌, ◌/◌, ◌^◌, Bool, true, false, ◌||◌, Option, none, some, ltb, leb, ◌==◌,
  if◌then◌else◌, ℤ, pos, neg_part, pos_part, ltbℤ, int64, positive_or,
}
use nzb_indexer.Nntp.Errors.{Error, ErrorKind, none_kind, auth, classify_error}

pub data CircuitState : Type 0 where
  closed open_circuit half_open : CircuitState

-- `last_err` is the error whose text the source keeps, `none` for the empty text; `now` of the
-- source is an argument of the methods that read the clock.
pub record CircuitBreaker : Type 0 where
  pub threshold : ℕ
  pub cooldown : ℕ
  pub max_cooldown : ℤ
  pub current_cooldown : ℤ
  pub consecutive_failures : ℕ
  pub state : CircuitState
  pub opened_at : ℕ
  pub last_err : Option Error
  pub last_err_kind : ErrorKind
  pub probing : Bool
  pub total_failures : ℕ
  pub total_success : ℕ
  pub opens : ℕ

abbrev pub second : ℕ
second = 1000000000

abbrev pub half_hour : ℤ
half_hour = pos 1800000000000

-- `cooldown*16 > maxCooldown` in int64.
cap_of : ℕ → ℤ
cap_of cooldown =
    let scaled = int64 (cooldown * 16) in if ltbℤ half_hour scaled then scaled else half_hour

-- `threshold` and `cooldown` as given; the two guards replace what is not positive.
unfoldable pub new_circuit_breaker : ℤ → ℤ → CircuitBreaker
unfolding cap_of
new_circuit_breaker threshold cooldown =
    let period = positive_or (30 * second) cooldown in
    record {
      threshold = positive_or 3 threshold;
      cooldown = period;
      max_cooldown = cap_of period;
      current_cooldown = pos period;
      consecutive_failures = 0;
      state = closed;
      opened_at = 0;
      last_err = none;
      last_err_kind = none_kind;
      probing = false;
      total_failures = 0;
      total_success = 0;
      opens = 0;
    }

-- `now.Sub(openedAt) >= currentCooldown`, over the integers.
abbrev pub elapsed : CircuitBreaker → ℕ → Bool
elapsed c now = leb (c.opened_at + pos_part c.current_cooldown) (now + neg_part c.current_cooldown)

-- The switch of `allow`: the breaker after the call, `ok` and `probe`.
allow_in : CircuitState → CircuitBreaker → ℕ → CircuitBreaker × Bool × Bool
allow_in closed c now = (c, true, false)
allow_in half_open c now =
    if c.probing then (c, false, false) else (record c { probing = true }, true, true)
allow_in open_circuit c now =
    if elapsed c now
    then (record c { state = half_open; probing = true }, true, true)
    else (c, false, false)

unfoldable pub allow : CircuitBreaker → ℕ → CircuitBreaker × Bool × Bool
unfolding allow_in
allow c now = allow_in c.state c now

unfoldable pub record_success : CircuitBreaker → CircuitBreaker
record_success c = record c {
  consecutive_failures = 0;
  state = closed;
  current_cooldown = pos c.cooldown;
  probing = false;
  last_err = none;
  last_err_kind = none_kind;
  total_success = c.total_success + 1;
}

-- `cooldown << shift`, with shift at most 10.
abbrev shift_of : ℕ → ℕ
shift_of opens = if ltb 10 (opens - 1) then 10 else opens - 1

-- The call always follows `opens++`, so `opens - 1` is exact.
unfoldable pub backoff_cooldown : CircuitBreaker → CircuitBreaker
backoff_cooldown c =
    let shifted = int64 (c.cooldown * 2 ^ shift_of c.opens) in
    record c { current_cooldown = if ltbℤ c.max_cooldown shifted then c.max_cooldown else shifted }

-- `c.opens++; c.backoffCooldown()`
unfoldable pub reopen : CircuitBreaker → CircuitBreaker
unfolding backoff_cooldown
reopen c = backoff_cooldown (record c { opens = c.opens + 1 })

abbrev is_auth : ErrorKind → Bool
is_auth auth = true
is_auth _ = false

abbrev keep_last : Option Error → Option Error → Option Error
keep_last none old = old
keep_last (some e) old = some e

-- The counting half of recordFailure, before its test.
count_failure : CircuitBreaker → Option Error → CircuitBreaker
count_failure c err = record c {
  probing = false;
  consecutive_failures = c.consecutive_failures + 1;
  total_failures = c.total_failures + 1;
  last_err_kind = classify_error err;
  last_err = keep_last err c.last_err;
}

-- The branch at or past the threshold.
trip : CircuitState → CircuitBreaker → ℕ → CircuitBreaker
trip open_circuit c now = record c { state = open_circuit; opened_at = now }
trip _ c now = record (reopen c) { state = open_circuit; opened_at = now }

-- The branch below the threshold.
count_only : CircuitState → CircuitBreaker → ℕ → CircuitBreaker
count_only half_open c now = reopen (record c { state = open_circuit; opened_at = now })
count_only _ c now = c

unfoldable pub record_failure : CircuitBreaker → Option Error → ℕ → CircuitBreaker
unfolding count_failure trip count_only
record_failure c err now =
    let counted = count_failure c err in
    if is_auth (classify_error err) || leb c.threshold (c.consecutive_failures + 1)
    then trip c.state counted now
    else count_only c.state counted now

pub record CircuitSnapshot : Type 0 where
  pub state : CircuitState
  pub consecutive_failures : ℕ
  pub last_error : Option Error
  pub last_error_kind : ErrorKind
  pub total_failures : ℕ
  pub total_success : ℕ
  pub opens : ℕ
  pub cooldown_secs : ℤ

-- int64(d.Seconds()): whole seconds, towards zero.
whole_seconds : ℤ → ℤ
whole_seconds (pos n) = pos (n / second)
whole_seconds d = if neg_part d / second == 0 then pos 0 else ℤ.negsuc (neg_part d / second - 1)

unfoldable pub snapshot : CircuitBreaker → CircuitSnapshot
unfolding whole_seconds
snapshot c = record {
  state = c.state;
  consecutive_failures = c.consecutive_failures;
  last_error = c.last_err;
  last_error_kind = c.last_err_kind;
  total_failures = c.total_failures;
  total_success = c.total_success;
  opens = c.opens;
  cooldown_secs = whole_seconds c.current_cooldown;
}
