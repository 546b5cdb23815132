-- ===== src/Worker/Schedule/Tests.antt =====
-- Schedules of a worker with a busy interval of one second.
use nzb_indexer.Base.{◌≡◌, refl, true, pos, negsuc}
use nzb_indexer.Worker.Schedule.{Options, Schedule, new_options, reconfigure, next_interval}
use nzb_indexer.Worker.Schedule.Positive.{reconfigured}

abbrev opts : Options
opts = record {
  scan_interval = pos 0;
  downstream_interval = pos 60000000000;
  build_interval = negsuc 3;
  post_process_interval = pos 0;
  enable_backfill = true;
  enrich_interval = pos 0;
  scan_concurrency = pos 0;
  adaptive_min_interval = pos 1000000000;
}

abbrev slower : Schedule
slower = record {
  scan_interval = pos 5;
  downstream_interval = negsuc 0;
  build_interval = pos 7000000000;
  post_process_interval = pos 0;
}

program : Unit {0}
unfolding new_options reconfigure next_interval reconfigured
program = tt

inherits : (new_options opts).build_interval ≡ pos 60000000000
unfolding program
inherits = refl

busy_is_sooner : next_interval (new_options opts) (pos 60000000000) true ≡ pos 1000000000
unfolding program
busy_is_sooner = refl
