-- ===== src/Nntp/Pool/Tests.antt =====
-- Runs of the pool, and the theorems at a pool of two connections whose server drops the first call.
use nzb_indexer.Base.{ℕ, zero, suc, ◌≡◌, refl, true, false, Option, none, some, [], ◌∷◌, pos, ◌+ℤ◌}
use nzb_indexer.Nntp.Errors.{Error, network, proto, is_conn_fatal}
use nzb_indexer.Nntp.Semaphore.{attempt, new_resizable_sem}
use nzb_indexer.Nntp.Semaphore
use nzb_indexer.Nntp.Pool.{
  Config, Pool, Outside, connected, new_with_dialer, acquire, release, reconfigure, resize, close,
  Operation, with_conn, round, done, error,
}
use nzb_indexer.Nntp.Pool.Invariant.{IsValid, new-IsValid}
use nzb_indexer.Nntp.Pool.Retry.{with_conn-IsValid}

abbrev cfg : Config
cfg = record { target = 1; max_conns = pos 2; max_retries = pos 1; retry_backoff = pos 0 }

abbrev fresh : Pool
fresh = new_with_dialer cfg

abbrev outside : Outside
outside = record {
  ctx_err = none;
  healthy = λ c. true;
  dial = λ cfg. connected 7;
  authenticate = λ c. none;
}

abbrev answer : ℕ → Option Error
answer zero = some network
answer (suc i) = none

abbrev operation : Operation
operation = record {
  slept = λ i. none;
  outside = λ i. outside;
  ctx_after = λ i. none;
  call = answer;
  spent = λ i. false;
}

program : Unit {0}
unfolding new_with_dialer acquire release reconfigure resize close with_conn round attempt
    new_resizable_sem Semaphore.release Semaphore.resize is_conn_fatal ◌+ℤ◌
program = tt

second_attempt : (with_conn operation fresh).1 ≡ done
unfolding program
second_attempt = refl

-- The connection of the failed call was discarded; that of the other is idle.
one_idle : (with_conn operation fresh).0.idle ≡ 7 ∷ []
unfolding program
one_idle = refl

status_error :
    (with_conn (record operation { call = λ i. some (proto 411) }) fresh).1 ≡ error (proto 411)
unfolding program
status_error = refl

with_conn-IsValid_example : IsValid (with_conn operation fresh).0 0
with_conn-IsValid_example = with_conn-IsValid operation fresh 0 (new-IsValid cfg)

abbrev held : Pool
held = (acquire fresh outside).0
