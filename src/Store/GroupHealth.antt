-- ===== src/Store/GroupHealth.antt =====
-- internal/store/grouphealth.go: the classification of a group's health. Counts, articles and instants
-- are natural numbers; a threshold that is not positive disables its check.
mod Levels
mod Tests
use nzb_indexer.Base.{
  ℕ, ◌-◌, Bool, true, false, not, ◌&&◌, ◌||◌, Option, none, some, List, [], ◌∷◌, ◌++◌, ltb,
  if◌then◌else◌, ℤ, pos, ltbℤ, lebℤ,
}

pub data Level : Type 0 where
  unknown ok warn error : Level

-- The signals of a group that count.
pub record Signals : Type 0 where
  pub server_high : ℕ
  pub last_scanned_high : ℕ
  pub active : Bool
  pub consecutive_failures : ℕ
  pub last_success_at : Option ℕ

pub record Thresholds : Type 0 where
  pub lag_warn : ℤ
  pub lag_error : ℤ
  pub stale_warn : ℤ
  pub stale_error : ℤ
  pub failures_warn : ℤ
  pub failures_error : ℤ

pub default_thresholds : Thresholds
default_thresholds = record {
  lag_warn = pos 50000;
  lag_error = pos 500000;
  stale_warn = pos 21600000000000;
  stale_error = pos 86400000000000;
  failures_warn = pos 1;
  failures_error = pos 5;
}

-- The texts of the reasons, by what they say.
pub data Reason : Type 0 where
  group_inactive never_scanned : Reason
  failures behind no_success_in : ℕ → Reason

pub record Health : Type 0 where
  pub level : Level
  pub reasons : List Reason
  pub lag : ℕ

abbrev rank : Level → ℕ
rank unknown = 0
rank ok = 1
rank warn = 2
rank error = 3

abbrev pub worst : Level → Level → Level
worst a b = if ltb (rank a) (rank b) then b else a

-- `t > 0 && n >= t`
abbrev pub hits : ℤ → ℕ → Bool
hits t n = ltbℤ (pos 0) t && lebℤ t (pos n)

-- One of the three checks: the level and the reasons after it.
abbrev check : ℤ → ℤ → ℕ → Reason → Level × List Reason → Level × List Reason
check err wrn n reason (level, reasons) =
    if hits err n
    then (worst level error, reasons ++ (reason ∷ []))
    else if hits wrn n
    then (worst level warn, reasons ++ (reason ∷ []))
    else (level, reasons)

abbrev is_ok : Level → Bool
is_ok ok = true
is_ok _ = false

abbrev never : ℕ → Level × List Reason → Health
never lag (level, reasons) =
    if is_ok level
    then record { level = unknown; reasons = reasons ++ (never_scanned ∷ []); lag = lag }
    else record { level = level; reasons = reasons; lag = lag }

abbrev with_lag : ℕ → Level × List Reason → Health
with_lag lag (level, reasons) = record { level = level; reasons = reasons; lag = lag }

abbrev after_success : Thresholds → ℕ → ℕ → Option ℕ → Level × List Reason → Health
after_success t lag now none checked = never lag checked
after_success t lag now (some at) checked =
    with_lag lag
      (check (t.stale_error) (t.stale_warn) (now - at) (no_success_in (now - at)) checked)

abbrev pub lag_of : Signals → ℕ
lag_of g = if ltb 0 g.server_high then g.server_high - g.last_scanned_high else 0

unfoldable pub classify : Signals → Thresholds → ℕ → Health
classify g t now =
    let lag = lag_of g in
    let failing =
      check (t.failures_error) (t.failures_warn) g.consecutive_failures
        (failures g.consecutive_failures) (ok, []) in
    let checked = check (t.lag_error) (t.lag_warn) lag (behind lag) failing in
    if g.active
    then after_success t lag now (g.last_success_at) checked
    else record { level = unknown; reasons = group_inactive ∷ []; lag = lag }
