-- ===== src/Nntp/Circuit/Range.antt =====
-- The cooldown of a breaker of internal/nntp/circuit.go stays between its base and its cap.
use native.Mathlib.Nat.{one-le-pow, pow-le-pow_right}
use nzb_indexer.Base.{
  ℕ, ◌+◌, ◌*◌, ◌^◌, ◌≤◌, ◌<◌, ◌≡◌, refl, ◌⊎◌, inl, inr, true, false, Bool, Option, arith, ℤ, pos,
  int64_small, List, [], ◌∷◌, min, max, ap, ◌||◌, leb, if◌then◌else◌, ◌∙◌,
}
use nzb_indexer.Nntp.Errors.{Error, classify_error}
use nzb_indexer.Nntp.Circuit.{
  CircuitBreaker, closed, open_circuit, half_open, new_circuit_breaker, allow, record_success,
  record_failure, reopen, backoff_cooldown, is_auth, CircuitState, trip, count_only, count_failure,
}
use nzb_indexer.Nntp.Circuit.Invariant.{Event, ask, succeed, fail, apply, run}
use nzb_indexer.Nntp.Circuit.Backoff.{HasRoom, mul_bounds, reopen_cooldown}

-- The cooldown in force lies between the base and the cap.
pub record InRange (c : CircuitBreaker) (base top : ℕ) : Type 0 where
  pub base_is : c.cooldown ≡ base
  pub top_is : c.max_cooldown ≡ pos top
  pub current : ℕ
  pub current_is : c.current_cooldown ≡ pos current
  pub base_le : base ≤ current
  pub le_top : current ≤ top

reopen-InRange :
    (c : CircuitBreaker) (base top : ℕ)
    → base ≤ top
    → base * 1024 < 9223372036854775808
    → InRange c base top
    → InRange (reopen c) base top
unfolding reopen backoff_cooldown
reopen-InRange c base top le small v =
    let low =
      mul_bounds base (2 ^ min c.opens 10) (one-le-pow _ 2 (omega arith))
        (pow-le-pow_right (omega arith) {j = 10} (omega arith)) in
    let r : HasRoom c = record {
      cap = top;
      cap_is = v.top_is;
      base_le_cap = rw v.base_is le;
      small = rw v.base_is small;
    } in
    record {
      base_is = v.base_is;
      top_is = v.top_is;
      current = min (c.cooldown * 2 ^ min c.opens 10) top;
      current_is = reopen_cooldown c r;
      base_le = rw v.base_is (omega arith);
      le_top = omega arith;
    }

InRange-of_eq :
    (c d : CircuitBreaker) (base top : ℕ)
    → d.cooldown ≡ c.cooldown
    → d.max_cooldown ≡ c.max_cooldown
    → (d.current_cooldown ≡ c.current_cooldown) ⊎ (d.current_cooldown ≡ pos c.cooldown)
    → base ≤ top
    → InRange c base top
    → InRange d base top
InRange-of_eq c d base top p q (inl e) le v = record {
  base_is = p ∙ v.base_is;
  top_is = q ∙ v.top_is;
  current = v.current;
  current_is = e ∙ v.current_is;
  base_le = v.base_le;
  le_top = v.le_top;
}
InRange-of_eq c d base top p q (inr e) le v = record {
  base_is = p ∙ v.base_is;
  top_is = q ∙ v.top_is;
  current = base;
  current_is = e ∙ ap pos v.base_is;
  base_le = omega arith;
  le_top = le;
}

trip-InRange :
    (s : CircuitState) (c : CircuitBreaker) (now base top : ℕ)
    → base ≤ top
    → base * 1024 < 9223372036854775808
    → InRange c base top
    → InRange (trip s c now) base top × InRange (count_only s c now) base top
unfolding trip count_only
trip-InRange closed c now base top le small v =
    let w = reopen-InRange c base top le small v in
    (InRange-of_eq (reopen c) _ base top refl refl (inl refl) le w, v)
trip-InRange open_circuit c now base top le small v =
    (InRange-of_eq c _ base top refl refl (inl refl) le v, v)
trip-InRange half_open c now base top le small v =
    let w = reopen-InRange c base top le small v in
    let d = record c { state = open_circuit; opened_at = now } in
    (
      InRange-of_eq (reopen c) _ base top refl refl (inl refl) le w,
      reopen-InRange d base top le small (InRange-of_eq c d base top refl refl (inl refl) le v),
    )

record_failure-InRange :
    (c : CircuitBreaker) (err : Option Error) (now base top : ℕ)
    → base ≤ top
    → base * 1024 < 9223372036854775808
    → InRange c base top
    → InRange (record_failure c err now) base top
unfolding record_failure
record_failure-InRange c err now base top le small v =
    let w : InRange (count_failure c err) base top =
      InRange-of_eq c (count_failure c err) base top refl refl (inl refl) le v in
    let both = trip-InRange c.state (count_failure c err) now base top le small w in
    choose (is_auth (classify_error err) || leb c.threshold (c.consecutive_failures + 1)) both
  where
    choose :
        {x y : CircuitBreaker} (b : Bool)
        → InRange x base top × InRange y base top
        → InRange (if b then x else y) base top
    choose true p = p.0
    choose false p = p.1

allow-InRange :
    (c : CircuitBreaker) (now base top : ℕ)
    → base ≤ top
    → InRange c base top
    → InRange (allow c now).0 base top
unfolding allow
allow-InRange c now base top le v =
    InRange-of_eq c (allow c now).0 base top (ground arith) (ground arith) (inl (ground arith)) le v

-- A breaker that starts with its cooldown between a base and a cap, the base being less than
-- 2^63/1024 ns (some 104 days), keeps it there through every sequence of calls: no shift overflows.
pub run-InRange :
    (c : CircuitBreaker) (base top : ℕ) (es : List Event)
    → base ≤ top
    → base * 1024 < 9223372036854775808
    → InRange c base top
    → InRange (run c es) base top
unfolding run apply
run-InRange c base top [] le small v = v
run-InRange c base top (ask now ∷ es) le small v =
    run-InRange (allow c now).0 base top es le small (allow-InRange c now base top le v)
run-InRange c base top (succeed ∷ es) le small v =
    run-InRange (record_success c) base top es le small (
      unfold record_success in
      InRange-of_eq c (record_success c) base top refl refl (inr refl) le v)
run-InRange c base top (fail err now ∷ es) le small v =
    run-InRange (record_failure c err now) base top es le small
      (record_failure-InRange c err now base top le small v)

-- A new breaker with a positive cooldown below 2^63/1024 ns is in range: its cap is the larger of
-- half an hour and sixteen times the cooldown.
pub new-InRange :
    (threshold : ℤ) (base : ℕ)
    → 0 < base
    → base * 1024 < 9223372036854775808
    → InRange (new_circuit_breaker threshold (pos base)) base (max 1800000000000 (base * 16))
unfolding new_circuit_breaker
new-InRange threshold base positive small =
    let wide = int64_small (base * 16) (omega arith) in
    record {
      base_is = ground arith;
      top_is = ground arith;
      current = base;
      current_is = ground arith;
      base_le = omega arith;
      le_top = omega arith;
    }
