-- ===== src/Config.antt =====
-- internal/config/config.go: the check of a configuration. Only the fields that are checked are here;
-- the messages are named by what they complain of.
mod Accepted
mod Tests
use Prim.Native.String.{String}
use text.Mathlib.Text.{◌==◌ as str_eq}
use nzb_indexer.Base.{
  Bool, true, false, not, ◌&&◌, ◌||◌, List, [], ◌∷◌, ◌++◌, if◌then◌else◌, ℤ, pos, lebℤ, ltbℤ,
}

pub record Config : Type 0 where
  pub listen_addr : String
  pub log_level : String
  pub database_dsn : String
  pub database_host : String
  pub database_port : ℤ
  pub database_name : String
  pub database_max_conns : ℤ
  pub database_reserved_conns : ℤ
  pub nntp_host : String
  pub nntp_port : ℤ
  pub nntp_max_conns : ℤ
  pub scan_batch_size : ℤ
  pub scan_concurrency : ℤ
  pub scan_interval : ℤ
  pub backfill_days : ℤ
  pub backfill_max_articles : ℤ
  pub retention_enabled : Bool
  pub retention_days : ℤ
  pub retention_batch_size : ℤ
  pub retention_max_batches : ℤ
  pub open_search_enabled : Bool
  pub open_search_url : String
  pub open_search_index : String
  pub default_rate_limit : ℤ
  pub rate_limit_window : ℤ

pub data Problem : Type 0 where
  listen_addr_required log_level_invalid database_host_required database_port_range : Problem
  database_name_required reserved_conns_range max_conns_range nntp_host_required : Problem
  nntp_port_range nntp_max_conns_range batch_size_range concurrency_negative : Problem
  interval_range backfill_days_negative backfill_max_articles_negative : Problem
  retention_days_negative retention_days_required retention_batch_negative : Problem
  retention_batches_negative open_search_url_required open_search_index_required : Problem
  rate_limit_range rate_window_range : Problem

abbrev pub problem_if : Bool → Problem → List Problem
problem_if true p = p ∷ []
problem_if false p = []

abbrev pub is_empty : String → Bool
is_empty s = str_eq s ""

abbrev pub bad_port : ℤ → Bool
bad_port port = lebℤ port (pos 0) || ltbℤ (pos 65535) port

abbrev pub is_level : String → Bool
is_level s = str_eq s "debug" || str_eq s "info" || str_eq s "warn" || str_eq s "error"

abbrev negative : ℤ → Bool
negative n = ltbℤ n (pos 0)

abbrev not_positive : ℤ → Bool
not_positive n = lebℤ n (pos 0)

unfoldable pub server_problems : Config → List Problem
server_problems c =
    problem_if (is_empty c.listen_addr) listen_addr_required
    ++ problem_if (not (is_level c.log_level)) log_level_invalid

unfoldable pub database_problems : Config → List Problem
database_problems c =
    (if is_empty c.database_dsn
      then problem_if (is_empty c.database_host) database_host_required
        ++ (problem_if (bad_port (c.database_port)) database_port_range
            ++ problem_if (is_empty c.database_name) database_name_required)
      else [])
    ++ (problem_if (lebℤ (c.database_max_conns) (c.database_reserved_conns)) reserved_conns_range
        ++ problem_if (not_positive (c.database_max_conns)) max_conns_range)

unfoldable pub nntp_problems : Config → List Problem
nntp_problems c =
    problem_if (is_empty c.nntp_host) nntp_host_required
    ++ (problem_if (bad_port (c.nntp_port)) nntp_port_range
        ++ problem_if (not_positive (c.nntp_max_conns)) nntp_max_conns_range)

unfoldable pub scan_problems : Config → List Problem
scan_problems c =
    problem_if (not_positive (c.scan_batch_size)) batch_size_range
    ++ (problem_if (negative (c.scan_concurrency)) concurrency_negative
        ++ (problem_if (not_positive (c.scan_interval)) interval_range
            ++ (problem_if (negative (c.backfill_days)) backfill_days_negative
                ++ problem_if (negative (c.backfill_max_articles)) backfill_max_articles_negative)))

unfoldable pub retention_problems : Config → List Problem
retention_problems c =
    problem_if (negative (c.retention_days)) retention_days_negative
    ++ (problem_if (c.retention_enabled && not_positive (c.retention_days)) retention_days_required
        ++ (problem_if (negative (c.retention_batch_size)) retention_batch_negative
            ++ problem_if (negative (c.retention_max_batches)) retention_batches_negative))

unfoldable pub open_search_problems : Config → List Problem
open_search_problems c =
    if c.open_search_enabled
    then problem_if (is_empty c.open_search_url) open_search_url_required
      ++ problem_if (is_empty c.open_search_index) open_search_index_required
    else []

unfoldable pub auth_problems : Config → List Problem
auth_problems c =
    problem_if (not_positive (c.default_rate_limit)) rate_limit_range
    ++ problem_if (not_positive (c.rate_limit_window)) rate_window_range

-- The problems in the order of the checks; none is an accepted configuration.
unfoldable pub validate : Config → List Problem
unfolding server_problems database_problems nntp_problems scan_problems retention_problems
    open_search_problems auth_problems
validate c =
    server_problems c
    ++ (database_problems c
        ++ (nntp_problems c
            ++ (scan_problems c
                ++ (retention_problems c ++ (open_search_problems c ++ auth_problems c)))))
