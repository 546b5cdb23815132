-- ===== src/Nntp/Failover/Tour.antt =====
-- What a round of `run` of internal/nntp/failover.go does with each server in turn.
use mathlib.Core.Path.{subst}
use nzb_indexer.Base.{
  ℕ, true, sym, map, Bool-cases, suc, ◌≡◌, false, Bool, Option, none, some, List, [], ◌∷◌, refl,
  inl, inr, Option-cases, ap,
}
use nzb_indexer.Nntp.Errors.{
  Error, ErrorKind, protocol, retention, no_healthy_server, classify_error,
}
use nzb_indexer.Nntp.Circuit.{CircuitBreaker, allow, record_success, record_failure}
use nzb_indexer.Nntp.Pool.{Pool}
use nzb_indexer.Nntp.Failover.Endpoints.{IsSorted, sort-IsSorted}
use nzb_indexer.Nntp.Failover.{
  Endpoint, EndpointConfig, after_error, after_call, sort_by_priority, FailoverPool, Attempts, Next,
  return, continue, visit, run, exhausted,
}
use nzb_indexer.Nntp.Failover.Serve.{serve, Next-cases, run-plain}

abbrev pub is_final : ErrorKind → Bool
is_final protocol = true
is_final retention = true
is_final _ = false

module _ (env : Attempts) where
  -- What becomes of the servers that are tried in this order, from attempt `i`, and of the caller.
  pub data Tour
      : ℕ → List Endpoint → Bool → Option Error → List Endpoint → Option Error → Type 0 where
    none_asked : {i : ℕ} {last : Option Error} → Tour i [] false last [] (some no_healthy_server)
    all_failed : {i : ℕ} {last : Option Error} → Tour i [] true last [] last
    cancelled :
        {i : ℕ} {e : Endpoint} {es : List Endpoint} {attempted : Bool} {last : Option Error}
        {err : Error}
        → env.ended i ≡ some err
        → Tour i (e ∷ es) attempted last (e ∷ es) (some err)
    passed_over :
        {i : ℕ} {e : Endpoint} {es es' : List Endpoint} {attempted : Bool} {last r : Option Error}
        {breaker : CircuitBreaker} {probe : Bool}
        → env.ended i ≡ none
        → allow e.breaker (env.asked i) ≡ (breaker, false, probe)
        → Tour (suc i) es attempted last es' r
        → Tour i (e ∷ es) attempted last (record e { breaker = breaker } ∷ es') r
    answered :
        {i : ℕ} {e : Endpoint} {es : List Endpoint} {attempted : Bool} {last : Option Error}
        {breaker : CircuitBreaker} {probe : Bool} {pool : Pool}
        → env.ended i ≡ none
        → allow e.breaker (env.asked i) ≡ (breaker, true, probe)
        → env.call i e.pool ≡ (pool, none)
        → Tour i
            (e ∷ es)
            attempted
            last
            (record e { breaker = record_success breaker; pool = pool } ∷ es)
            none
    refused :
        {i : ℕ} {e : Endpoint} {es : List Endpoint} {attempted : Bool} {last : Option Error}
        {breaker : CircuitBreaker} {probe : Bool} {pool : Pool} {err : Error}
        → env.ended i ≡ none
        → allow e.breaker (env.asked i) ≡ (breaker, true, probe)
        → env.call i e.pool ≡ (pool, some err)
        → is_final (classify_error (some err)) ≡ true
        → Tour i
            (e ∷ es)
            attempted
            last
            (record e { breaker = record_success breaker; pool = pool } ∷ es)
            (some err)
    failed_over :
        {i : ℕ} {e : Endpoint} {es es' : List Endpoint} {attempted : Bool} {last r : Option Error}
        {breaker : CircuitBreaker} {probe : Bool} {pool : Pool} {err : Error}
        → env.ended i ≡ none
        → allow e.breaker (env.asked i) ≡ (breaker, true, probe)
        → env.call i e.pool ≡ (pool, some err)
        → is_final (classify_error (some err)) ≡ false
        → Tour (suc i) es true (some err) es' r
        → Tour i
            (e ∷ es)
            attempted
            last
            (record e { breaker = record_failure breaker (some err) (env.failed_at i); pool = pool }
              ∷ es')
            r

  -- The rest of a round after one attempt.
  abbrev after_visit : ℕ → List Endpoint → Endpoint × Next → List Endpoint × Option Error
  after_visit i es (e, return r) = (e ∷ es, r)
  after_visit i es (e, continue attempted last) =
      let (rest, r) = serve env i es attempted last in (e ∷ rest, r)

  serve-step :
      (i : ℕ) (e : Endpoint) (es : List Endpoint) (attempted : Bool) (last : Option Error)
      → env.ended i ≡ none
      → serve env i (e ∷ es) attempted last ≡ after_visit (suc i) es (visit env i e attempted last)
  unfolding serve
  serve-step i e es attempted last on = elim (Next-cases (visit env i e attempted last).1) [
    | inl (r, f) ↦ rw (on, f, serve) refl
    | inr (a, l, f) ↦ rw (on, f, serve) refl
  ]

  -- Any tour of the servers after this one.
  abbrev Rest : ℕ → List Endpoint → Type 0
  Rest i es =
      (attempted : Bool) (last : Option Error)
      → Tour i es attempted last (serve env i es attempted last).0 (serve env i es attempted last).1

  abbrev From : ℕ → Endpoint → List Endpoint → Bool → Option Error → Endpoint × Next → Type 0
  From i e es attempted last visited =
      Tour i (e ∷ es) attempted last (after_visit (suc i) es visited).0
        (after_visit (suc i) es visited).1

  error-From :
      (i : ℕ) (e : Endpoint) (es : List Endpoint) (attempted : Bool) (last : Option Error)
      (breaker : CircuitBreaker) (probe : Bool) (pool : Pool) (err : Error) (kind : ErrorKind)
      → classify_error (some err) ≡ kind
      → env.ended i ≡ none
      → allow e.breaker (env.asked i) ≡ (breaker, true, probe)
      → env.call i e.pool ≡ (pool, some err)
      → Rest (suc i) es
      → From i e es attempted last
          (after_error kind (record e { breaker = breaker; pool = pool }) err (env.failed_at i))
  unfolding after_error
  error-From i e es attempted last breaker probe pool err protocol k on asked called rest =
      refused on asked called (ap is_final k)
  error-From i e es attempted last breaker probe pool err retention k on asked called rest =
      refused on asked called (ap is_final k)
  error-From i e es attempted last breaker probe pool err _ k on asked called rest =
      failed_over on asked called (ap is_final k) (rest true (some err))

  call-From :
      (i : ℕ) (e : Endpoint) (es : List Endpoint) (attempted : Bool) (last : Option Error)
      (breaker : CircuitBreaker) (probe : Bool) (pool : Pool) (result : Option Error)
      → env.ended i ≡ none
      → allow e.breaker (env.asked i) ≡ (breaker, true, probe)
      → env.call i e.pool ≡ (pool, result)
      → Rest (suc i) es
      → From i e es attempted last
          (after_call (record e { breaker = breaker; pool = pool }) result (env.failed_at i))
  unfolding after_call
  call-From i e es attempted last breaker probe pool none on asked called rest =
      answered on asked called
  call-From i e es attempted last breaker probe pool (some err) on asked called rest =
      error-From i e es attempted last breaker probe pool err (classify_error (some err)) refl on
        asked called rest

  visit-From :
      (i : ℕ) (e : Endpoint) (es : List Endpoint) (attempted : Bool) (last : Option Error)
      → env.ended i ≡ none
      → Rest (suc i) es
      → From i e es attempted last (visit env i e attempted last)
  unfolding visit
  visit-From i e es attempted last on rest =
      let asked = allow e.breaker (env.asked i) in
      let called = env.call i e.pool in
      elim (Bool-cases (asked.1)) [
        | inl granted ↦ rw granted (
            call-From i e es attempted last (asked.0) (asked.2) (called.0) (called.1) on
              (ap (λ b. (asked.0, b, asked.2)) granted) refl rest)
        | inr closed ↦
            rw closed
              (passed_over on (ap (λ b. (asked.0, b, asked.2)) closed) (rest attempted last))
      ]

  serve-Tour : (i : ℕ) (es : List Endpoint) → Rest i es
  unfolding serve
  serve-Tour i [] = λ attempted last. nothing_left i attempted last
    where
      nothing_left :
          (i : ℕ) (attempted : Bool) (last : Option Error)
          → Tour i [] attempted last [] (exhausted attempted last)
      nothing_left i false last = none_asked
      nothing_left i true last = all_failed
  serve-Tour i (e ∷ es) = λ attempted last. elim (Option-cases (env.ended i)) [
    | inr (err, over) ↦ rw (over, serve) (cancelled over)
    | inl on ↦
        subst (λ r. Tour i (e ∷ es) attempted last (r.0) (r.1))
          (sym (serve-step i e es attempted last on))
          (visit-From i e es attempted last on (serve-Tour (suc i) es))
  ]

  Tour-keeps :
      {i : ℕ} {es es' : List Endpoint} {attempted : Bool} {last r : Option Error}
      → Tour i es attempted last es' r
      → map (λ (e : Endpoint). e.cfg) es' ≡ map (λ (e : Endpoint). e.cfg) es
  Tour-keeps none_asked = refl
  Tour-keeps all_failed = refl
  Tour-keeps (cancelled over) = refl
  Tour-keeps (passed_over {e = e} on asked rest) = ap (λ cs. e.cfg ∷ cs) (Tour-keeps rest)
  Tour-keeps (answered on asked called) = refl
  Tour-keeps (refused on asked called k) = refl
  Tour-keeps (failed_over {e = e} on asked called k rest) = ap (λ cs. e.cfg ∷ cs) (Tour-keeps rest)

-- Without load balancing, over the servers that SetEndpoints made of configurations, whatever their
-- breakers and pools have become since: the servers stand in priority order, and `run` never indexes out
-- of range and tries them in that order. It stops when the context has ended; passes over a server whose
-- breaker does not allow the call; returns the answer of a server, or its error if that is of the
-- protocol or a missing article, as a success of the server; and goes on to the next server after any
-- other error, as its failure. At the end the error is the last one, or that no server was healthy. The
-- servers keep their configurations and order.
pub run-serve :
    (fp : FailoverPool) (cfgs : List EndpointConfig) (env : Attempts)
    → map (λ (e : Endpoint). e.cfg) fp.endpoints ≡ sort_by_priority cfgs
    → fp.opts.load_balance ≡ false
    → (es : List Endpoint) × (r : Option Error) × (run fp env
        ≡ some (record fp { endpoints = es }, r))
      × Tour env 0 fp.endpoints false none es r
      × IsSorted (map (λ (e : Endpoint). e.cfg) fp.endpoints)
      × (map (λ (e : Endpoint). e.cfg) es ≡ map (λ (e : Endpoint). e.cfg) fp.endpoints)
run-serve fp cfgs env same b =
    let toured = serve-Tour env 0 fp.endpoints false none in
    (
      (serve env 0 fp.endpoints false none).0,
      (serve env 0 fp.endpoints false none).1,
      run-plain fp env b,
      toured,
      subst IsSorted (sym same) (sort-IsSorted cfgs),
      Tour-keeps env toured,
    )
