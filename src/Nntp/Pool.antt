-- ===== src/Nntp/Pool.antt =====
-- internal/nntp/pool.go: the pool of connections to one server. A method is a function from the
-- pool to the new pool and its result, one method at a time. What happens outside the pool is an
-- argument: the answers of `ping`, of dialling and of authenticating, and of the operation run.
mod Invariant
mod Retry
mod Tests
use nzb_indexer.Base.{
  ℕ, zero, suc, ◌+◌, ◌-◌, Bool, true, false, ◌||◌, Option, none, some, List, [], ◌∷◌, length, ltb,
  leb, ◌==◌, if◌then◌else◌, ℤ, pos, ◌*◌, positive_or, lebℤ, pos_part, ◌+ℤ◌,
}
use nzb_indexer.Nntp.Errors.{Error, pool_closed, no_conns, wrap, join, is_conn_fatal}
use nzb_indexer.Nntp.Semaphore.{
  ResizableSem, Attempt, acquired, sleeping, refused, attempt, new_resizable_sem,
}
use nzb_indexer.Nntp.Semaphore

-- A live connection, named by a number.
abbrev pub Conn : Type 0
Conn = ℕ

-- The fields that the pool reads; `target` stands for host, port, TLS, credentials and timeout,
-- which it only hands to the dialer.
pub record Config : Type 0 where
  pub target : ℕ
  pub max_conns : ℤ
  pub max_retries : ℤ
  pub retry_backoff : ℤ

-- The head of `idle` is the end of the source's slice, where it appends and removes. `opened` is
-- the source's `open`; it is never decreased below zero (Pool.Invariant).
pub record Pool : Type 0 where
  pub cfg : Config
  pub idle : List Conn
  pub opened : ℕ
  pub closed : Bool
  pub sem : ResizableSem

pub data Dialed : Type 0 where
  connected : Conn → Dialed
  dial_failed : Error → Dialed

-- The answers that one checkout gets from outside.
pub record Outside : Type 0 where
  pub ctx_err : Option Error
  pub healthy : Conn → Bool
  pub dial : Config → Dialed
  pub authenticate : Conn → Option Error

pub data Checkout : Type 0 where
  got : Conn → Checkout
  failed : Error → Checkout
  blocked : Checkout

abbrev at_least_one : ℤ → ℕ
at_least_one = positive_or 1

unfoldable pub new_with_dialer : Config → Pool
new_with_dialer cfg =
    let n = at_least_one cfg.max_conns in
    record {
      cfg = record cfg { max_conns = pos n };
      idle = [];
      opened = 0;
      closed = false;
      sem = new_resizable_sem (pos n);
    }

-- The loop over the idle connections: the first healthy one, the rest of the slice, and how many
-- were discarded (each takes one from `open`).
take_idle : (Conn → Bool) → List Conn → Option Conn × List Conn × ℕ
take_idle healthy [] = (none, [], 0)
take_idle healthy (c ∷ rest) =
    let (found, left, dropped) = take_idle healthy rest in
    if healthy c then (some c, rest, 0) else (found, left, dropped + 1)

release_sem : Pool → Pool
release_sem p = record p { sem = Semaphore.release p.sem }

after_auth : Pool → Conn → Option Error → Pool × Checkout
unfolding release_sem
after_auth p c (some err) = (release_sem p, failed err)
after_auth p c none = (record p { opened = p.opened + 1 }, got c)

-- Dial and authenticate, with the slot given back on either failure.
after_dial : Pool → Outside → Dialed → Pool × Checkout
unfolding release_sem after_auth
after_dial p o (dial_failed err) = (release_sem p, failed err)
after_dial p o (connected c) = after_auth p c (o.authenticate c)

-- After the loop over the idle connections.
after_idle : Pool → Outside → Option Conn → Pool × Checkout
unfolding after_dial
after_idle p o (some c) = (p, got c)
after_idle p o none = after_dial p o (o.dial p.cfg)

-- The checkout once a slot is held.
with_slot : Pool → Outside → Pool × Checkout
unfolding release_sem take_idle after_idle
with_slot p o =
    if p.closed
    then (release_sem p, failed pool_closed)
    else (let (found, left, dropped) = take_idle o.healthy p.idle in
        after_idle (record p { idle = left; opened = p.opened - dropped }) o found)

-- The three ways out of the semaphore's `acquire`.
after_attempt : Pool → Outside → ResizableSem × Attempt → Pool × Checkout
unfolding with_slot
after_attempt p o (s, refused err) = (record p { sem = s }, failed (join no_conns err))
after_attempt p o (s, sleeping) = (record p { sem = s }, blocked)
after_attempt p o (s, acquired) = with_slot (record p { sem = s }) o

unfoldable pub acquire : Pool → Outside → Pool × Checkout
unfolding after_attempt
acquire p o = after_attempt p o (attempt p.sem o.ctx_err)

-- `broken` or a closed pool discards the connection.
unfoldable pub release : Pool → Conn → Bool → Pool
unfolding release_sem
release p c broken =
    if p.closed || broken
    then release_sem (record p { opened = p.opened - 1 })
    else release_sem (record p { idle = c ∷ p.idle })

-- The new pool and the idle connections that are closed.
unfoldable pub reconfigure : Pool → Config → Pool × List Conn
reconfigure p cfg =
    let n = at_least_one cfg.max_conns in
    (
      record p {
        cfg = record cfg { max_conns = pos n };
        idle = [];
        opened = p.opened - length p.idle;
        sem = Semaphore.resize p.sem (pos n);
      },
      p.idle,
    )

unfoldable pub resize : Pool → ℤ → Pool
resize p max_conns =
    let n = at_least_one max_conns in
    record p { cfg = record (p.cfg) { max_conns = pos n }; sem = Semaphore.resize p.sem (pos n) }

unfoldable pub close : Pool → Pool × List Conn
close p =
    if p.closed
    then (p, [])
    else (record p { closed = true; idle = []; opened = p.opened - length p.idle }, p.idle)

pub stats : Pool → ℕ × ℕ
stats p = (p.opened, length p.idle)

pub max_conns : Pool → ℕ × ℕ
max_conns p = Semaphore.stats p.sem

-- `errors.Is(err, ErrPoolClosed)`
is_pool_closed : Error → Bool
is_pool_closed pool_closed = true
is_pool_closed (wrap e) = is_pool_closed e
is_pool_closed (join e f) = is_pool_closed e || is_pool_closed f
is_pool_closed _ = false

-- What one `withConn` call gets from outside, by attempt: the end of the pause before it, the
-- checkout's answers, the context after a failed checkout, and the operation's error and whether
-- it left the connection spent.
pub record Operation : Type 0 where
  pub slept : ℕ → Option Error
  pub outside : ℕ → Outside
  pub ctx_after : ℕ → Option Error
  pub call : ℕ → Option Error
  pub spent : ℕ → Bool

pub data Outcome : Type 0 where
  done : Outcome
  error : Error → Outcome
  stuck : Outcome

-- The delay before a retry, in nanoseconds.
pub backoff : Pool → ℕ → ℤ
backoff p attempt = let base = positive_or 250000000 p.cfg.retry_backoff in pos (attempt * base)

abbrev pub last_outcome : Option Error → Outcome
last_outcome none = done
last_outcome (some err) = error err

-- What follows the checkout of attempt `i`: a final result, or the error to retry with.
pub data Round : Type 0 where
  finish : Outcome → Round
  retry : Error → Round

after_call : Pool → Conn → Option Error → Bool → Pool × Round
unfolding release
after_call p c none spent = (release p c spent, finish done)
after_call p c (some err) spent =
    if is_conn_fatal (some err)
    then (release p c true, retry err)
    else (release p c spent, finish (error err))

after_failure : Error → Option Error → Round
unfolding is_pool_closed
after_failure err (some ended) = finish (error err)
after_failure err none = if is_pool_closed err then finish (error err) else retry err

after_checkout : Operation → ℕ → Pool × Checkout → Pool × Round
unfolding after_call after_failure
after_checkout op i (q, got c) = after_call q c (op.call i) (op.spent i)
after_checkout op i (q, failed err) = (q, after_failure err (op.ctx_after i))
after_checkout op i (q, blocked) = (q, finish stuck)

-- One round of the loop past its pause.
unfoldable pub round : Operation → Pool → ℕ → Pool × Round
unfolding acquire after_checkout
round op p i = after_checkout op i (acquire p (op.outside i))

-- The pause before attempt `i`; there is none before the first.
abbrev pub pause : Operation → ℕ → Option Error
pause op zero = none
pause op (suc i) = op.slept (suc i)

-- The loop, with `n` attempts left of which the next is number `i`, and `lastErr`.
unfoldable pub attempts_from : Operation → ℕ → ℕ → Pool → Option Error → Pool × Outcome
attempts_from op zero i p last = (p, last_outcome last)
attempts_from op (suc n) i p last =
    let (q, r) = round op p i in
    elim (pause op i) [
      | some err ↦ (p, error err)
      | none ↦ elim r [
        | finish out ↦ (q, out)
        | retry err ↦ attempts_from op n (suc i) q (some err)
      ]
    ]

-- `MaxRetries + 1`, at least one.
abbrev pub attempts : Config → ℕ
attempts cfg = positive_or 1 (cfg.max_retries +ℤ pos 1)

unfoldable pub with_conn : Operation → Pool → Pool × Outcome
unfolding attempts_from
with_conn op p = attempts_from op (attempts p.cfg) 0 p none
