-- ===== src/Store/GroupHealth/Tests.antt =====
-- A group that lags and fails.
use nzb_indexer.Base.{◌≡◌, refl, true, none, [], ◌∷◌, pos}
use nzb_indexer.Store.GroupHealth.{error, Signals, Thresholds, failures, behind, classify}
use nzb_indexer.Store.GroupHealth.Levels.{is_error, classify_levels}

abbrev group : Signals
group = record {
  server_high = 900;
  last_scanned_high = 100;
  active = true;
  consecutive_failures = 1;
  last_success_at = none;
}

abbrev limits : Thresholds
limits = record {
  lag_warn = pos 100;
  lag_error = pos 500;
  stale_warn = pos 0;
  stale_error = pos 0;
  failures_warn = pos 1;
  failures_error = pos 5;
}

program : Unit {0}
unfolding classify
program = tt

behind_and_failing :
    classify group limits 0
    ≡ record { level = error; reasons = failures 1 ∷ behind 800 ∷ []; lag = 800 }
unfolding program
behind_and_failing = refl

classify_levels_example : is_error (classify group limits 0).level ≡ true
classify_levels_example = (classify_levels group limits 0).0
