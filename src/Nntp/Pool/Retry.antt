-- ===== src/Nntp/Pool/Retry.antt =====
-- The retry loop of internal/nntp/pool.go.
use nzb_indexer.Base.{
  ℕ, zero, suc, ◌+◌, ◌≤◌, ◌<◌, ◌≡◌, ◌≢◌, true, Bool, Option, none, some, arith, refl, ◌⊎◌, inl, inr,
  Option-cases, Bool-cases, ◌∙◌, ap,
}
use nzb_indexer.Nntp.Errors.{Error, is_conn_fatal}
use nzb_indexer.Nntp.Pool.{
  Conn, Pool, Checkout, got, failed, blocked, acquire, Operation, Round, Outcome, done, finish,
  retry, round, after_checkout, after_call, after_failure, attempts_from, attempts, with_conn,
  pause,
}
use nzb_indexer.Nntp.Pool.Invariant.{IsValid, acquire-IsValid, release-IsValid, after_out}

after_call-IsValid :
    (p : Pool) (c : Conn) (err : Option Error) (spent : Bool) (out : ℕ)
    → IsValid p (suc out)
    → IsValid (after_call p c err spent).0 out
unfolding after_call
after_call-IsValid p c none spent out v = release-IsValid p c spent out v
after_call-IsValid p c (some err) spent out v = elim (Bool-cases (is_conn_fatal (some err))) [
  | inl e ↦ rw e (release-IsValid p c true out v)
  | inr e ↦ rw e (release-IsValid p c spent out v)
]

after_checkout-IsValid :
    (op : Operation) (i : ℕ) (p : Pool) (r : Checkout) (out : ℕ)
    → IsValid p (after_out r out)
    → IsValid (after_checkout op i (p, r)).0 out
unfolding after_checkout
after_checkout-IsValid op i p (got c) out v =
    after_call-IsValid p c (op.call i) (op.spent i) out
      (record { counted = omega arith; slots = omega arith; emptied = v.emptied })
after_checkout-IsValid op i p (failed err) out v = v
after_checkout-IsValid op i p blocked out v = v

round-IsValid :
    (op : Operation) (p : Pool) (i out : ℕ) → IsValid p out → IsValid (round op p i).0 out
unfolding round
round-IsValid op p i out v =
    after_checkout-IsValid op i (acquire p (op.outside i)).0 (acquire p (op.outside i)).1 out
      (acquire-IsValid p (op.outside i) out v)

Round-cases : (r : Round) → ((out : Outcome) × (r ≡ finish out)) ⊎ ((err : Error) × (r ≡ retry err))
Round-cases (finish out) = inl (out, refl)
Round-cases (retry err) = inr (err, refl)

attempts_from-IsValid :
    (op : Operation) (n i : ℕ) (p : Pool) (last : Option Error) (out : ℕ)
    → IsValid p out
    → IsValid (attempts_from op n i p last).0 out
unfolding attempts_from
attempts_from-IsValid op zero i p last out v = v
attempts_from-IsValid op (suc n) i p last out v = elim (Option-cases (pause op i)) [
  | inr (err, e) ↦ rw (e, attempts_from) v
  | inl e ↦ elim (Round-cases (round op p i).1) [
    | inl (r, f) ↦ rw (e, f, attempts_from) (round-IsValid op p i out v)
    | inr (err, f) ↦
        rw (e, f, attempts_from)
          (attempts_from-IsValid op n (suc i) (round op p i).0 (some err) out
            (round-IsValid op p i out v))
  ]
]

-- A run of an operation, with all its retries and on every way out, leaves as many connections in
-- the hands of other callers as there were, and no slot of its own.
pub with_conn-IsValid :
    (op : Operation) (p : Pool) (out : ℕ) → IsValid p out → IsValid (with_conn op p).0 out
unfolding with_conn
with_conn-IsValid op p out v = attempts_from-IsValid op (attempts p.cfg) 0 p none out v

after_call_done :
    (p : Pool) (c : Conn) (err : Option Error) (spent : Bool)
    → (after_call p c err spent).1 ≡ finish done
    → err ≡ none
unfolding after_call
after_call_done p c none spent h = refl
after_call_done p c (some err) spent h = elim (Bool-cases (is_conn_fatal (some err))) [
  | inl e ↦ ground arith
  | inr e ↦ ground arith
]

after_failure_done : (err : Error) (ctx : Option Error) → after_failure err ctx ≢ finish done
unfolding after_failure
after_failure_done err none h = ground arith
after_failure_done err (some ended) h = cc

round_done : (op : Operation) (p : Pool) (i : ℕ) → (round op p i).1 ≡ finish done → op.call i ≡ none
unfolding round after_checkout
round_done op p i h = go (acquire p (op.outside i)).0 (acquire p (op.outside i)).1 h
  where
    go : (q : Pool) (r : Checkout) → (after_checkout op i (q, r)).1 ≡ finish done → op.call i ≡ none
    go q (got c) e = after_call_done q c (op.call i) (op.spent i) e
    go q (failed err) e = absurd (after_failure_done err (op.ctx_after i) e)
    go q blocked e = cc

attempts_from_done :
    (op : Operation) (n i : ℕ) (p : Pool) (last : Option Error)
    → (attempts_from op n i p last).1 ≡ done
    → ((n ≡ 0) × (last ≡ none)) ⊎ ((k : ℕ) × (i ≤ k) × (k < i + n) × (op.call k ≡ none))
unfolding attempts_from
attempts_from_done op zero i p none h = inl (refl, refl)
attempts_from_done op zero i p (some err) h = cc
attempts_from_done op (suc n) i p last h = elim (Option-cases (pause op i)) [
  | inr (err, e) ↦ cc (rw (e, attempts_from) at h)
  | inl e ↦ elim (Round-cases (round op p i).1) [
    | inl (r, f) ↦ inr (
      i,
      omega arith,
      omega arith,
      round_done op p i (f ∙ ap finish (rw (e, f, attempts_from) at h)),
    )
    | inr (err, f) ↦
        elim (attempts_from_done op n (suc i) (round op p i).0 (some err)
          (rw (e, f, attempts_from) at h)) [
            | inl both ↦ cc (both.1)
            | inr (k, lo, hi, ok) ↦ inr (k, omega arith, omega arith, ok)
          ]
  ]
]

-- `withConn` reports success only after the operation itself succeeded on one of the attempts that
-- MaxRetries allows, the first of which is always made.
pub with_conn_done :
    (op : Operation) (p : Pool)
    → (with_conn op p).1 ≡ done
    → (k : ℕ) × (k < attempts p.cfg) × (op.call k ≡ none)
unfolding with_conn
with_conn_done op p h = elim (attempts_from_done op (attempts p.cfg) 0 p none h) [
  | inl both ↦ absurd (ground arith)
  | inr (k, lo, hi, ok) ↦ (k, omega arith, ok)
]
