-- ===== src/Server/Budget.antt =====
-- internal/server/budget.go: how many workers the scan and post-process stages get.
mod Plan
mod Tests
use nzb_indexer.Base.{
  ℕ, ◌+◌, ◌-◌, ◌*◌, ◌/◌, Bool, true, false, ◌||◌, ltb, leb, ◌==◌, if◌then◌else◌, ℤ, pos, pos_part,
  positive_or, ltbℤ, lebℤ,
}

pub record ResourceBudget : Type 0 where
  pub nntp_max_conns : ℕ
  pub db_max_conns : ℕ
  pub reserved_api_conns : ℕ
  pub db_pipeline_budget : ℕ
  pub scan_workers : ℕ
  pub post_process_workers : ℕ
  pub overcommit : Bool

abbrev pub clamp : ℕ → ℕ → ℕ → ℕ
clamp v lo hi = if ltb v lo then lo else if ltb hi v then hi else v

-- The last guard of the source.
abbrev not_all : ℕ → ℕ → ℕ
not_all db n = if leb db n then db - 1 else n

unfoldable pub default_reserved_api_conns : ℕ → ℕ
default_reserved_api_conns db =
    let n = db / 4 in
    if leb db 1
    then 0
    else (let n = if ltb n 1 then 1 else n in not_all db (if ltb 4 n then 4 else n))

-- `scan` and `pp` past their own guards, over a budget of three or more.
share : ℕ → ℕ → ℕ → ℕ × ℕ
share scan pp budget =
    let part = budget * scan / (scan + pp) in
    let scan_share = if ltb part 1 then 1 else part in
    let pp_share = budget - scan_share in
    if ltb pp_share 1 then (budget - 1, 1) else (scan_share, pp_share)

unfoldable pub fit_within_budget : ℕ → ℕ → ℕ → ℕ × ℕ
unfolding share
fit_within_budget scan pp budget =
    let scan = if ltb scan 1 then 1 else scan in
    let pp = if ltb pp 1 then 1 else pp in
    if leb (scan + pp) budget
    then (scan, pp)
    else if leb budget 1
    then (1, 1)
    else if budget == 2
    then (1, 1)
    else share scan pp budget

-- `reservedAPIConns` after the three guards, for a pool of at least one connection.
unfoldable pub reserve : ℤ → ℕ → ℕ
unfolding default_reserved_api_conns
reserve requested db =
    let r = if ltbℤ requested (pos 0) then default_reserved_api_conns db else pos_part requested in
    if ltb (db - 1) r then db - 1 else r

abbrev pub auto_scan : ℕ → ℕ
auto_scan nntp = clamp (nntp / 2) 1 8

abbrev pub auto_pp : ℕ → ℕ
auto_pp nntp = clamp (nntp / 2) 1 4

-- The plan from the guarded pool sizes and the two counts; `explicit` says that one was overridden.
unfoldable pub plan : ℕ → ℕ → ℕ → ℕ → ℕ → Bool → ResourceBudget
plan nntp db reserved scan pp explicit =
    let db_pipeline = if ltb (db - reserved) 1 then 1 else db - reserved in
    let fitted = fit_within_budget scan pp db_pipeline in
    if explicit
    then record {
      nntp_max_conns = nntp;
      db_max_conns = db;
      reserved_api_conns = reserved;
      db_pipeline_budget = db_pipeline;
      scan_workers = scan;
      post_process_workers = pp;
      overcommit = ltb db_pipeline (scan + pp);
    }
    else record {
      nntp_max_conns = nntp;
      db_max_conns = db;
      reserved_api_conns = reserved;
      db_pipeline_budget = db_pipeline;
      scan_workers = fitted.0;
      post_process_workers = fitted.1;
      overcommit = false;
    }

abbrev pub is_override : ℤ → Bool
is_override n = ltbℤ (pos 0) n

unfoldable pub compute_budget : ℤ → ℤ → ℤ → ℤ → ℤ → ResourceBudget
compute_budget nntp_max_conns db_max_conns reserved_api_conns scan_override pp_override =
    let nntp = positive_or 1 nntp_max_conns in
    let db = positive_or 1 db_max_conns in
    plan nntp db (reserve reserved_api_conns db) (positive_or (auto_scan nntp) scan_override)
      (positive_or (auto_pp nntp) pp_override)
      (is_override scan_override || is_override pp_override)
