-- ===== src/Nntp/Circuit/Backoff.antt =====
-- When a breaker of internal/nntp/circuit.go opens, and for how long.
use native.Mathlib.Nat.{one-le-pow, pow-le-pow_right}
use nzb_indexer.Base.{
  ℕ, ◌+◌, ◌*◌, ◌^◌, ◌≤◌, ◌<◌, ◌≡◌, ◌≢◌, inl, inr, false, Option, arith, pos, int64_small, List, [],
  ◌∷◌, min, leb, if◌then◌else◌, length, Bool-cases, ◌∙◌,
}
use nzb_indexer.Nntp.Errors.{Error, auth, classify_error}
use nzb_indexer.Nntp.Circuit.{
  CircuitBreaker, closed, open_circuit, half_open, record_success, record_failure, reopen,
  backoff_cooldown, shift_of, is_auth, count_failure,
}

pub mul_bounds : (c p : ℕ) → 1 ≤ p → p ≤ 1024 → (c ≤ c * p) × (c * p ≤ c * 1024)
mul_bounds c p lo hi = grind arith

-- The durations stay far from the width of an int64, and the cap is not below the base cooldown.
pub record HasRoom (c : CircuitBreaker) : Type 0 where
  pub cap : ℕ
  pub cap_is : c.max_cooldown ≡ pos cap
  pub base_le_cap : c.cooldown ≤ cap
  pub small : c.cooldown * 1024 < 9223372036854775808

-- An opening sets the cooldown to the base doubled once for each earlier opening of the breaker's
-- life, at most ten times and at most up to the cap.
pub reopen_cooldown :
    (c : CircuitBreaker) (r : HasRoom c)
    → (reopen c).current_cooldown ≡ pos (min (c.cooldown * 2 ^ min c.opens 10) r.cap)
unfolding reopen backoff_cooldown
reopen_cooldown c r =
    let e : shift_of (c.opens + 1) ≡ min c.opens 10 = ground arith in
    let b =
      mul_bounds c.cooldown (2 ^ min c.opens 10) (one-le-pow _ 2 (omega arith))
        (pow-le-pow_right (omega arith) {j = 10} (omega arith)) in
    let s = int64_small (c.cooldown * 2 ^ min c.opens 10) (omega arith) in
    rw (e, s, r.cap_is) (ground arith)

-- An authentication failure of a breaker that is not open opens it at once, for a cooldown that
-- counts every earlier opening of the breaker's life: a success in between resets nothing.
pub open_after_success :
    (c : CircuitBreaker) (r : HasRoom c) (err : Option Error) (now : ℕ)
    → classify_error err ≡ auth
    → let c' = record_failure (record_success c) err now in
      (c'.state ≡ open_circuit)
      × (c'.opened_at ≡ now)
      × (c'.current_cooldown ≡ pos (min (c.cooldown * 2 ^ min c.opens 10) r.cap))
unfolding record_failure record_success
open_after_success c r err now a =
    let moved =
      reopen_cooldown (count_failure (record_success c) err)
        (record { cap = r.cap; cap_is = r.cap_is; base_le_cap = r.base_le_cap; small = r.small }) in
    ground arith

abbrev pub BelowAuth : List (Option Error × ℕ) → Type 0
BelowAuth [] = Unit
BelowAuth ((err, now) ∷ rest) = (classify_error err ≢ auth) × BelowAuth rest

unfoldable pub fail_all : CircuitBreaker → List (Option Error × ℕ) → CircuitBreaker
fail_all c [] = c
fail_all c ((err, now) ∷ rest) = fail_all (record_failure c err now) rest

not_auth : (k : _) → k ≢ auth → is_auth k ≡ false
not_auth k h = ground arith

record_failure_state :
    (c : CircuitBreaker) (err : Option Error) (now : ℕ)
    → classify_error err ≢ auth
    → c.state ≢ half_open
    → ((record_failure c err now).state
        ≡ (if leb c.threshold (c.consecutive_failures + 1) then open_circuit else c.state))
      × ((record_failure c err now).consecutive_failures ≡ c.consecutive_failures + 1)
      × ((record_failure c err now).threshold ≡ c.threshold)
unfolding record_failure reopen
record_failure_state c err now a h = rw (not_auth (classify_error err) a) (ground arith)

fail_all_open :
    (c : CircuitBreaker) (fs : List (Option Error × ℕ))
    → BelowAuth fs
    → c.state ≡ open_circuit
    → c.threshold ≤ c.consecutive_failures
    → (fail_all c fs).state ≡ open_circuit
unfolding fail_all
fail_all_open c [] a s t = s
fail_all_open c ((err, now) ∷ rest) a s t =
    let k = record_failure_state c err now a.0 (λ e. cc) in
    fail_all_open (record_failure c err now) rest a.1 (ground arith) (omega arith)

-- A closed breaker that sees only failures that are not of authentication, with no success between
-- them, is open after them exactly when they bring the count to the threshold.
pub fail_all_state :
    (c : CircuitBreaker) (fs : List (Option Error × ℕ))
    → BelowAuth fs
    → c.state ≡ closed
    → c.consecutive_failures < c.threshold
    → (fail_all c fs).state
      ≡ (if leb c.threshold (c.consecutive_failures + length fs) then open_circuit else closed)
unfolding fail_all
fail_all_state c [] a s t = ground arith
fail_all_state c ((err, now) ∷ rest) a s t =
    let (state, failures, threshold) = record_failure_state c err now a.0 (λ e. cc) in
    elim (Bool-cases (leb c.threshold (c.consecutive_failures + 1))) [
      | inl over ↦
          fail_all_open (record_failure c err now) rest a.1 (ground arith) (ground arith)
          ∙ ground arith
      | inr under ↦
          fail_all_state (record_failure c err now) rest a.1 (ground arith) (ground arith)
          ∙ ground arith
    ]
