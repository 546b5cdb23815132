-- ===== src/Nntp/Failover.antt =====
-- internal/nntp/failover.go: the prioritised servers, each with its pool and its breaker. `run` is
-- modelled for one caller at a time: what it gets from outside (the context, the clock, the
-- operation's answers) is an argument, by attempt. Server ids are distinct, as keys of a table are.
mod Serve
mod Tour
mod Order
mod Endpoints
mod Tests
use Prim.Native.String.{String}
use mathlib.Core.Option
use nzb_indexer.Base.{
  ℕ, zero, suc, ◌+◌, ◌%◌, Bool, true, false, ◌&&◌, Option, none, some, List, [], ◌∷◌, ◌++◌, map,
  length, get_elem?, set, ◌==◌, if◌then◌else◌, ℤ, ltbℤ, ltb,
}
use nzb_indexer.Nntp.Errors.{
  Error, ErrorKind, protocol, retention, no_healthy_server, classify_error,
}
use nzb_indexer.Nntp.Circuit.{
  CircuitBreaker, CircuitState, open_circuit, new_circuit_breaker, allow, record_success,
  record_failure, snapshot,
}
use nzb_indexer.Nntp.Pool.{Config, Pool}
use nzb_indexer.Nntp.Pool

pub record EndpointConfig : Type 0 where
  pub id : ℕ
  pub name : String
  pub priority : ℤ
  pub config : Config

pub record FailoverOptions : Type 0 where
  pub failure_threshold : ℤ
  pub cooldown : ℤ
  pub load_balance : Bool

pub record Endpoint : Type 0 where
  pub cfg : EndpointConfig
  pub pool : Pool
  pub breaker : CircuitBreaker

pub record FailoverPool : Type 0 where
  pub endpoints : List Endpoint
  pub opts : FailoverOptions
  pub rr_index : ℕ

-- `sort.SliceStable` by priority: an element goes in front of the first that is greater.
insert_by_priority : EndpointConfig → List EndpointConfig → List EndpointConfig
insert_by_priority c [] = c ∷ []
insert_by_priority c (d ∷ ds) =
    if ltbℤ d.priority c.priority then d ∷ insert_by_priority c ds else c ∷ d ∷ ds

unfoldable pub sort_by_priority : List EndpointConfig → List EndpointConfig
unfolding insert_by_priority
sort_by_priority [] = []
sort_by_priority (c ∷ cs) = insert_by_priority c (sort_by_priority cs)

abbrev or_else {ℓ} : {A : Type ℓ} → Option A → Option A → Option A
or_else none y = y
or_else (some x) y = some x

-- The lookup in `existing`: the last endpoint with the id.
unfoldable pub existing : ℕ → List Endpoint → Option Endpoint
existing id [] = none
existing id (e ∷ es) = or_else (existing id es) (if e.cfg.id == id then some e else none)

-- The lookup in `seen`.
unfoldable pub seen : ℕ → List EndpointConfig → Bool
seen id [] = false
seen id (c ∷ cs) = if c.id == id then true else seen id cs

-- The endpoint for a configuration: the old one reconfigured, or a new one.
adopt : FailoverOptions → EndpointConfig → Option Endpoint → Endpoint
adopt opts c (some e) = record e { cfg = c; pool = (Pool.reconfigure e.pool c.config).0 }
adopt opts c none = record {
  cfg = c;
  pool = Pool.new_with_dialer c.config;
  breaker = new_circuit_breaker opts.failure_threshold opts.cooldown;
}

-- The endpoints that are no longer configured, with their pools closed.
closed_out : List EndpointConfig → List Endpoint → List Endpoint
closed_out cfgs [] = []
closed_out cfgs (e ∷ es) =
    let rest = closed_out cfgs es in
    if seen e.cfg.id cfgs then rest else record e { pool = (Pool.close e.pool).0 } ∷ rest

-- The new pool, and the endpoints that it gave up.
unfoldable pub set_endpoints : FailoverPool → List EndpointConfig → FailoverPool × List Endpoint
unfolding adopt closed_out
set_endpoints fp cfgs =
    let sorted = sort_by_priority cfgs in
    (
      record fp { endpoints = map (λ c. adopt fp.opts c (existing c.id fp.endpoints)) sorted },
      closed_out sorted fp.endpoints,
    )

unfoldable pub new_failover : List EndpointConfig → FailoverOptions → FailoverPool
new_failover cfgs opts =
    (set_endpoints (record { endpoints = []; opts = opts; rr_index = 0 }) cfgs).0

pub close_all : FailoverPool → FailoverPool × List Endpoint
close_all fp = (
  record fp { endpoints = [] },
  map (λ (e : Endpoint). record e { pool = (Pool.close e.pool).0 }) fp.endpoints,
)

-- What one `run` gets from outside at attempt `i`: `ctx.Err()`, the instants that `allow` and
-- `recordFailure` read, and the operation on the pool.
pub record Attempts : Type 0 where
  pub ended : ℕ → Option Error
  pub asked : ℕ → ℕ
  pub failed_at : ℕ → ℕ
  pub call : ℕ → Pool → Pool × Option Error

-- What follows an attempt: a return, or the next attempt with `attempted` and `lastErr`.
pub data Next : Type 0 where
  return : Option Error → Next
  continue : Bool → Option Error → Next

-- The switch on the kind of the operation's error.
after_error : ErrorKind → Endpoint → Error → ℕ → Endpoint × Next
after_error protocol e err now =
    (record e { breaker = record_success e.breaker }, return (some err))
after_error retention e err now =
    (record e { breaker = record_success e.breaker }, return (some err))
after_error _ e err now =
    (record e { breaker = record_failure e.breaker (some err) now }, continue true (some err))

after_call : Endpoint → Option Error → ℕ → Endpoint × Next
unfolding after_error
after_call e none now = (record e { breaker = record_success e.breaker }, return none)
after_call e (some err) now = after_error (classify_error (some err)) e err now

-- One attempt on an endpoint, past the test of the context.
unfoldable pub visit : Attempts → ℕ → Endpoint → Bool → Option Error → Endpoint × Next
unfolding after_call
visit env i e attempted last =
    let (breaker, allowed, probe) = allow e.breaker (env.asked i) in
    let asked = record e { breaker = breaker } in
    if allowed
    then (let (pool, result) = env.call i e.pool in
        after_call (record asked { pool = pool }) result (env.failed_at i))
    else (asked, continue attempted last)

-- After the loop.
abbrev pub exhausted : Bool → Option Error → Option Error
exhausted attempted last = if attempted then last else some no_healthy_server

-- The loop of `run` with `n` attempts left, of which the next is number `i`, over the endpoints in
-- their slice. `none` is an index out of range.
unfoldable pub run_from :
    Attempts
    → ℕ
    → ℕ
    → ℕ
    → List Endpoint
    → Bool
    → Option Error
    → Option (List Endpoint × Option Error)
run_from env start zero i eps attempted last = some (eps, exhausted attempted last)
run_from env start (suc n) i eps attempted last = elim (get_elem? eps ((start + i) % length eps)) [
  | none ↦ none
  | some e ↦ elim (env.ended i) [
    | some err ↦ some (eps, some err)
    | none ↦
        let (e', next) = visit env i e attempted last in
        let eps' = set eps ((start + i) % length eps) e' in
        elim next [
          | return r ↦ some (eps', r)
          | continue attempted' last' ↦ run_from env start n (suc i) eps' attempted' last'
        ]
  ]
]

-- Where the round starts, and the next value of `rrIndex`.
abbrev start_of : FailoverPool → ℕ × ℕ
start_of fp =
    if fp.opts.load_balance && ltb 0 (length fp.endpoints)
    then (fp.rr_index % length fp.endpoints, fp.rr_index + 1)
    else (0, fp.rr_index)

keep_result :
    FailoverPool → ℕ → Option (List Endpoint × Option Error) → Option (FailoverPool × Option Error)
keep_result fp next none = none
keep_result fp next (some (eps, r)) = some (record fp { endpoints = eps; rr_index = next }, r)

unfoldable pub run : FailoverPool → Attempts → Option (FailoverPool × Option Error)
unfolding keep_result
run fp env =
    if length fp.endpoints == 0
    then some (fp, some no_healthy_server)
    else keep_result fp (start_of fp).1
        (run_from env (start_of fp).0 (length fp.endpoints) 0 fp.endpoints false none)

-- Stats: the open and idle connections of all the pools.
pub stats : List Endpoint → ℕ × ℕ
stats [] = (0, 0)
stats (e ∷ es) =
    let (opened, idle) = stats es in ((Pool.stats e.pool).0 + opened, (Pool.stats e.pool).1 + idle)

abbrev is_open : CircuitState → Bool
is_open open_circuit = true
is_open _ = false

-- The first endpoint whose circuit is not open.
unfoldable pub first_usable : List Endpoint → Option Endpoint
first_usable [] = none
first_usable (e ∷ es) = if is_open (snapshot e.breaker).state then first_usable es else some e

-- ActiveServer: name and id, `none` when all circuits are open.
pub active_server : FailoverPool → Option (String × ℕ)
active_server fp = Option.map (λ e. (e.cfg.name, e.cfg.id)) (first_usable fp.endpoints)

-- MaxConns of the endpoints: the active one's, or the first one's when all are open.
pub max_conns : FailoverPool → ℕ × ℕ
max_conns fp = elim (first_usable fp.endpoints) [
  | some e ↦ Pool.max_conns e.pool
  | none ↦ elim fp.endpoints [ [] ↦ (0, 0) | e ∷ es ↦ Pool.max_conns e.pool ]
]
