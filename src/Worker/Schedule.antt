-- ===== src/Worker/Schedule.antt =====
-- internal/worker/worker.go: the intervals of the loops. Durations are integers of nanoseconds.
mod Positive
mod Tests
use nzb_indexer.Base.{Bool, true, false, if◌then◌else◌, ℤ, pos, lebℤ, ltbℤ, not, ◌||◌}

pub record Options : Type 0 where
  pub scan_interval : ℤ
  pub downstream_interval : ℤ
  pub build_interval : ℤ
  pub post_process_interval : ℤ
  pub enable_backfill : Bool
  pub enrich_interval : ℤ
  pub scan_concurrency : ℤ
  pub adaptive_min_interval : ℤ

abbrev or_default : ℤ → ℤ → ℤ
or_default n default = if lebℤ n (pos 0) then default else n

-- The options as New leaves them.
unfoldable pub new_options : Options → Options
new_options opts =
    let scan = or_default (opts.scan_interval) (pos 900000000000) in
    let downstream = or_default (opts.downstream_interval) scan in
    record {
      scan_interval = scan;
      downstream_interval = downstream;
      build_interval = or_default (opts.build_interval) downstream;
      post_process_interval = or_default (opts.post_process_interval) downstream;
      enable_backfill = opts.enable_backfill;
      enrich_interval = or_default (opts.enrich_interval) (pos 1800000000000);
      scan_concurrency =
          if ltbℤ (opts.scan_concurrency) (pos 1) then pos 1 else opts.scan_concurrency;
      adaptive_min_interval = opts.adaptive_min_interval;
    }

pub record Schedule : Type 0 where
  pub scan_interval : ℤ
  pub downstream_interval : ℤ
  pub build_interval : ℤ
  pub post_process_interval : ℤ

unfoldable pub current_schedule : Options → Schedule
current_schedule opts = record {
  scan_interval = opts.scan_interval;
  downstream_interval = opts.downstream_interval;
  build_interval = opts.build_interval;
  post_process_interval = opts.post_process_interval;
}

abbrev if_positive : ℤ → ℤ → ℤ
if_positive n old = if ltbℤ (pos 0) n then n else old

unfoldable pub reconfigure : Options → Schedule → Options
reconfigure opts s = record opts {
  scan_interval = if_positive (s.scan_interval) (opts.scan_interval);
  downstream_interval = if_positive (s.downstream_interval) (opts.downstream_interval);
  build_interval = if_positive (s.build_interval) (opts.build_interval);
  post_process_interval = if_positive (s.post_process_interval) (opts.post_process_interval);
}

unfoldable pub next_interval : Options → ℤ → Bool → ℤ
next_interval opts configured busy =
    let least = opts.adaptive_min_interval in
    if lebℤ least (pos 0) || not busy
    then configured
    else if ltbℤ least configured
    then least
    else configured
