-- ===== src/Store/GroupHealth/Levels.antt =====
-- Which signals give which level in internal/store/grouphealth.go.
use nzb_indexer.Base.{ℕ, ◌-◌, ◌≡◌, Bool, true, false, not, ◌&&◌, ◌||◌, Option, none, some, arith}
use nzb_indexer.Store.GroupHealth.{
  Level, unknown, error, Signals, Thresholds, hits, lag_of, classify, check,
}

abbrev pub is_error : Level → Bool
is_error error = true
is_error _ = false

abbrev pub is_unknown : Level → Bool
is_unknown unknown = true
is_unknown _ = false

-- Whether a check hits, at the error threshold or at any.
abbrev pub stale : (ℕ → Bool) → Option ℕ → ℕ → Bool
stale check none now = false
stale check (some at) now = check (now - at)

abbrev pub hits_any : Thresholds → Signals → Bool
hits_any t g =
    hits (t.failures_error) g.consecutive_failures
    || hits (t.failures_warn) g.consecutive_failures
    || hits (t.lag_error) (lag_of g)
    || hits (t.lag_warn) (lag_of g)

abbrev never_succeeded : Option ℕ → Bool
never_succeeded none = true
never_succeeded (some at) = false

-- A group is in error exactly when it is active and its failures, its lag or the age of its last
-- success reach the threshold of an error; its health is unknown exactly when it is inactive, or has
-- never succeeded while neither failures nor lag reach a threshold.
pub classify_levels :
    (g : Signals) (t : Thresholds) (now : ℕ)
    → (is_error (classify g t now).level ≡ (
        g.active
        && (hits (t.failures_error) g.consecutive_failures
            || hits (t.lag_error) (lag_of g)
            || stale (hits (t.stale_error)) (g.last_success_at) now)))
      × (is_unknown (classify g t now).level
          ≡ (not g.active || (never_succeeded (g.last_success_at) && not (hits_any t g))))
unfolding classify
classify_levels g t now = (ground arith, ground arith)
