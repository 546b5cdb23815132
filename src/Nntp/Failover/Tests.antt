-- ===== src/Nntp/Failover/Tests.antt =====
-- Runs of the failover, and the theorems at two servers of which the first drops every call.
use nzb_indexer.Base.{
  ℕ, zero, suc, ◌≡◌, refl, false, Option, none, some, List, [], ◌∷◌, pos, map, int64,
}
use nzb_indexer.Nntp.Errors.{Error, network, classify_error}
use nzb_indexer.Nntp.Circuit.{allow, record_failure, record_success, reopen, new_circuit_breaker}
use nzb_indexer.Nntp.Pool.{Config, Pool}
use nzb_indexer.Nntp.Pool
use nzb_indexer.Nntp.Failover.{
  Endpoint, EndpointConfig, FailoverPool, FailoverOptions, Attempts, run, run_from, visit,
  new_failover, set_endpoints, sort_by_priority, existing, seen,
}
use nzb_indexer.Nntp.Failover.Serve.{serve}
use nzb_indexer.Nntp.Failover.Tour.{Tour, run-serve}
use nzb_indexer.Nntp.Failover.Endpoints.{IsSorted}

abbrev config : Config
config = record { target = 1; max_conns = pos 2; max_retries = pos 0; retry_backoff = pos 0 }

abbrev main_server : EndpointConfig
main_server = record { id = 1; name = "main"; priority = pos 0; config = config }

abbrev fallback : EndpointConfig
fallback = record { id = 2; name = "fallback"; priority = pos 10; config = config }

abbrev options : FailoverOptions
options = record { failure_threshold = pos 1; cooldown = pos 30; load_balance = false }

abbrev servers : FailoverPool
servers = new_failover (fallback ∷ main_server ∷ []) options

abbrev answer : ℕ → Option Error
answer zero = some network
answer (suc i) = none

abbrev env : Attempts
env = record {
  ended = λ i. none;
  asked = λ i. 100;
  failed_at = λ i. 101;
  call = λ i p. (p, answer i);
}

program : Unit {0}
unfolding int64 new_failover set_endpoints sort_by_priority existing seen run run_from visit serve
    allow record_failure record_success reopen new_circuit_breaker classify_error
    Pool.new_with_dialer
program = tt

sorted : map (λ (e : Endpoint). e.cfg.id) servers.endpoints ≡ 1 ∷ 2 ∷ []
unfolding program
sorted = refl

abbrev served : List Endpoint × Option Error
served = serve env 0 servers.endpoints false none

-- The first server fails and its circuit opens; the second answers.
fell_back : (served.1 ≡ none) × (map (λ (e : Endpoint). e.breaker.opens) served.0 ≡ 1 ∷ 0 ∷ [])
unfolding program
fell_back = (refl, refl)

configured :
    map (λ (e : Endpoint). e.cfg) servers.endpoints ≡ sort_by_priority (fallback ∷ main_server ∷ [])
unfolding program
configured = refl

not_balanced : servers.opts.load_balance ≡ false
unfolding program
not_balanced = refl

run-serve_example :
    (es : List Endpoint) × (r : Option Error) × (run servers env
      ≡ some (record servers { endpoints = es }, r))
    × Tour env 0 servers.endpoints false none es r
    × IsSorted (map (λ (e : Endpoint). e.cfg) servers.endpoints)
    × (map (λ (e : Endpoint). e.cfg) es ≡ map (λ (e : Endpoint). e.cfg) servers.endpoints)
run-serve_example = run-serve servers (fallback ∷ main_server ∷ []) env configured not_balanced

abbrev tripped : Endpoint
tripped = record {
  cfg = main_server;
  pool = Pool.new_with_dialer config;
  breaker = record_failure (new_circuit_breaker (pos 1) (pos 30)) (some network) 90;
}

abbrev added : EndpointConfig
added = record { id = 3; name = "added"; priority = pos 5; config = config }
