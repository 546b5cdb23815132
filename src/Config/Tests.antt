-- ===== src/Config/Tests.antt =====
-- A configuration that is accepted, and two that are not.
use nzb_indexer.Base.{◌≡◌, refl, true, false, [], ◌∷◌, pos}
use nzb_indexer.Config.{
  Config, max_conns_range, reserved_conns_range, retention_days_required, server_problems,
  database_problems, nntp_problems, scan_problems, retention_problems, open_search_problems,
  auth_problems, validate,
}
use nzb_indexer.Config.Accepted.{IsUsable, validate-IsUsable}

abbrev usual : Config
usual = record {
  listen_addr = ":8080";
  log_level = "info";
  database_dsn = "";
  database_host = "db";
  database_port = pos 5432;
  database_name = "nzb";
  database_max_conns = pos 20;
  database_reserved_conns = pos 5;
  nntp_host = "news";
  nntp_port = pos 563;
  nntp_max_conns = pos 10;
  scan_batch_size = pos 5000;
  scan_concurrency = pos 0;
  scan_interval = pos 600;
  backfill_days = pos 30;
  backfill_max_articles = pos 0;
  retention_enabled = true;
  retention_days = pos 90;
  retention_batch_size = pos 0;
  retention_max_batches = pos 0;
  open_search_enabled = false;
  open_search_url = "";
  open_search_index = "";
  default_rate_limit = pos 1000;
  rate_limit_window = pos 3600;
}

program : Unit {0}
unfolding validate server_problems database_problems nntp_problems scan_problems retention_problems
    open_search_problems auth_problems
program = tt

accepted : validate usual ≡ []
unfolding program
accepted = refl

-- The reserved connections are compared before the range of the pool's size is.
no_connections :
    validate (record usual { database_max_conns = pos 0 })
    ≡ reserved_conns_range ∷ max_conns_range ∷ []
unfolding program
no_connections = refl

no_days : validate (record usual { retention_days = pos 0 }) ≡ retention_days_required ∷ []
unfolding program
no_days = refl

validate-IsUsable_example : IsUsable usual
validate-IsUsable_example = validate-IsUsable usual accepted
