-- ===== src/Server/Budget/Tests.antt =====
-- Plans for a provider of 20 connections, and the theorems there.
use nzb_indexer.Base.{◌+◌, ◌≤◌, ◌≡◌, refl, false, arith, pos, negsuc, max}
use nzb_indexer.Server.Budget.{compute_budget, fit_within_budget, reserve, plan}
use nzb_indexer.Server.Budget.Plan.{auto_plan}

-- 20 NNTP connections and a database pool of 10, all automatic: 8 for the pipeline.
ten_connections :
    let b = compute_budget (pos 20) (pos 10) (negsuc 0) (pos 0) (pos 0) in
    (b.reserved_api_conns ≡ 2) × (b.scan_workers ≡ 5) × (b.post_process_workers ≡ 3)
unfolding compute_budget fit_within_budget reserve plan
ten_connections = (refl, refl, refl)

auto_plan_example :
    let b = compute_budget (pos 20) (pos 10) (negsuc 0) (pos 0) (pos 0) in
    (1 ≤ b.scan_workers)
    × (1 ≤ b.post_process_workers)
    × (b.scan_workers + b.post_process_workers ≤ max 2 b.db_pipeline_budget)
    × (b.overcommit ≡ false)
auto_plan_example =
    auto_plan (pos 20) (pos 10) (negsuc 0) (pos 0) (pos 0) (omega arith) (omega arith)
