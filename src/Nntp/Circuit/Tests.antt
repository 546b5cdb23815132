-- ===== src/Nntp/Circuit/Tests.antt =====
-- Runs of the breaker, and the theorems at a breaker with a threshold of 3 and a 30 s cooldown.
use nzb_indexer.Base.{◌≡◌, refl, ◌*◌, some, arith, pos, int64, List, [], ◌∷◌}
use nzb_indexer.Nntp.Errors.{network, proto, classify_error}
use nzb_indexer.Nntp.Circuit.{
  CircuitBreaker, open_circuit, new_circuit_breaker, allow, record_success, record_failure, reopen,
  second,
}
use nzb_indexer.Nntp.Circuit.Invariant.{
  IsValid, Event, ask, succeed, fail, run, apply, new-IsValid, run-IsValid,
}
use nzb_indexer.Nntp.Circuit.Backoff
use nzb_indexer.Nntp.Circuit.Probe.{granted, any_elapsed, open_grants_one}

abbrev fresh : CircuitBreaker
fresh = new_circuit_breaker (pos 3) (pos (30 * second))

abbrev three_failures : List Event
three_failures = fail (some network) 5 ∷ fail (some network) 6 ∷ fail (some network) 7 ∷ []

abbrev program : Unit {0}
unfolding new_circuit_breaker int64 allow record_success record_failure reopen classify_error run
    apply granted any_elapsed
program = tt

three_open : (run fresh three_failures).state ≡ open_circuit
unfolding program
three_open = refl

one_probe : granted (run fresh three_failures) (8 ∷ (31 * second) ∷ (32 * second) ∷ []) ≡ 1
unfolding program
one_probe = refl

-- After one earlier opening and a success, the next opening lasts 60 s and not 30 s.
doubled :
    (run fresh (
      fail (some (proto 481)) 5
      ∷ ask (40 * second)
      ∷ succeed
      ∷ fail (some (proto 481)) 50
      ∷ [])).current_cooldown
    ≡ pos (60 * second)
unfolding program
doubled = refl

run-IsValid_example : IsValid (run fresh three_failures)
run-IsValid_example = run-IsValid fresh three_failures (new-IsValid (pos 3) (pos (30 * second)))

abbrev opened : CircuitBreaker
opened = run fresh three_failures

open_grants_one_example : granted opened (8 ∷ (31 * second) ∷ (32 * second) ∷ []) ≡ 1
unfolding program
open_grants_one_example = open_grants_one opened (8 ∷ (31 * second) ∷ (32 * second) ∷ []) refl

abbrev probing : CircuitBreaker
probing = (allow opened (31 * second)).0

fresh-HasRoom : Backoff.HasRoom fresh
unfolding program
fresh-HasRoom = record {
  cap = 1800 * second;
  cap_is = refl;
  base_le_cap = omega arith;
  small = omega arith;
}
