-- ===== src/Nntp/Circuit/Invariant.antt =====
-- What holds of a breaker of internal/nntp/circuit.go between two calls.
use nzb_indexer.Base.{ℕ, ◌≤◌, ◌<◌, ◌≡◌, ◌≢◌, true, Option, arith, ℤ, List, [], ◌∷◌}
use nzb_indexer.Nntp.Errors.{Error}
use nzb_indexer.Nntp.Circuit.{
  CircuitBreaker, closed, half_open, new_circuit_breaker, allow, record_success, record_failure,
  reopen,
}

pub record IsValid (c : CircuitBreaker) : Type 0 where
  pub positive : 0 < c.threshold
  pub below : c.state ≡ closed → c.consecutive_failures < c.threshold
  pub probe_half_open : c.probing ≡ true → c.state ≡ half_open
  pub half_open_probes : c.state ≡ half_open → c.probing ≡ true
  pub opened : c.state ≢ closed → 0 < c.opens
  pub failures_total : c.consecutive_failures ≤ c.total_failures

pub new-IsValid : (threshold cooldown : ℤ) → IsValid (new_circuit_breaker threshold cooldown)
unfolding new_circuit_breaker
new-IsValid threshold cooldown = ground arith

pub allow-IsValid : (c : CircuitBreaker) (now : ℕ) → IsValid c → IsValid (allow c now).0
unfolding allow
allow-IsValid c now v = ground arith

pub record_success-IsValid : (c : CircuitBreaker) → IsValid c → IsValid (record_success c)
unfolding record_success
record_success-IsValid c v = ground arith

pub record_failure-IsValid :
    (c : CircuitBreaker) (err : Option Error) (now : ℕ)
    → IsValid c
    → IsValid (record_failure c err now)
unfolding record_failure reopen
record_failure-IsValid c err now v = ground arith

pub data Event : Type 0 where
  ask : ℕ → Event
  succeed : Event
  fail : Option Error → ℕ → Event

unfoldable pub apply : CircuitBreaker → Event → CircuitBreaker
apply c (ask now) = (allow c now).0
apply c succeed = record_success c
apply c (fail err now) = record_failure c err now

unfoldable pub run : CircuitBreaker → List Event → CircuitBreaker
run c [] = c
run c (e ∷ es) = run (apply c e) es

apply-IsValid : (c : CircuitBreaker) (e : Event) → IsValid c → IsValid (apply c e)
unfolding apply
apply-IsValid c (ask now) v = allow-IsValid c now v
apply-IsValid c succeed v = record_success-IsValid c v
apply-IsValid c (fail err now) v = record_failure-IsValid c err now v

-- From any valid breaker, every interleaving of calls by any number of callers keeps the breaker
-- valid: closed means fewer consecutive failures than the threshold, half-open means exactly that a
-- probe is marked as running, and a breaker that is not closed has been opened.
pub run-IsValid : (c : CircuitBreaker) (es : List Event) → IsValid c → IsValid (run c es)
unfolding run
run-IsValid c [] v = v
run-IsValid c (e ∷ es) v = run-IsValid (apply c e) es (apply-IsValid c e v)
