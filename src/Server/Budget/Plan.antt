-- ===== src/Server/Budget/Plan.antt =====
-- What the plan of internal/server/budget.go guarantees.
use nzb_indexer.Base.{
  ℕ, ◌+◌, ◌-◌, ◌/◌, ◌≤◌, ◌<◌, ◌≡◌, ◌↔◌, Bool, true, false, ltb, arith, if◌then◌else◌, ℤ, pos,
  pos_part, positive_or, ltbℤ, ◌≤ℤ◌, max, refl, ltb→lt, lt→ltb, ◌||◌,
}
use nzb_indexer.Server.Budget.{
  clamp, default_reserved_api_conns, share, fit_within_budget, reserve, auto_scan, auto_pp, plan,
  compute_budget, is_override,
}

share_bounds :
    (scan pp budget : ℕ)
    → 3 ≤ budget
    → (1 ≤ (share scan pp budget).0)
      × (1 ≤ (share scan pp budget).1)
      × ((share scan pp budget).0 + (share scan pp budget).1 ≡ budget)
unfolding share
share_bounds scan pp budget b = ground arith

-- Fitting gives each stage a worker and keeps the sum within the budget, where the budget has room
-- for two; it leaves alone what fits.
pub fit_within_budget_bounds :
    (scan pp budget : ℕ)
    → let (s, p) = fit_within_budget scan pp budget in
      (1 ≤ s)
      × (1 ≤ p)
      × (s + p ≤ max 2 budget)
      × (1 ≤ scan → 1 ≤ pp → scan + pp ≤ budget → (s ≡ scan) × (p ≡ pp))
unfolding fit_within_budget
fit_within_budget_bounds scan pp budget =
    ground
      (arith, share_bounds (if ltb scan 1 then 1 else scan) (if ltb pp 1 then 1 else pp) budget)

-- The connections held back for the API are fewer than the pool's; an automatic reservation of a pool
-- of two or more is a quarter of it, at least one and at most four.
pub reserve_bounds :
    (requested : ℤ) (db : ℕ)
    → 1 ≤ db
    → (reserve requested db < db)
      × (ltbℤ requested (pos 0) ≡ true → 2 ≤ db → reserve requested db ≡ clamp (db / 4) 1 4)
      × (ltbℤ requested (pos 0) ≡ false
          → pos_part requested < db
          → reserve requested db ≡ pos_part requested)
unfolding reserve default_reserved_api_conns
reserve_bounds requested db h = ground arith

plan_splits :
    (nntp db reserved scan pp : ℕ) (explicit : Bool)
    → reserved < db
    → let b = plan nntp db reserved scan pp explicit in
      (b.reserved_api_conns + b.db_pipeline_budget ≡ b.db_max_conns)
      × (1 ≤ b.db_pipeline_budget)
      × (b.db_max_conns ≡ db)
unfolding plan
plan_splits nntp db reserved scan pp true h = ground arith
plan_splits nntp db reserved scan pp false h = ground arith

plan_auto :
    (nntp db reserved scan pp : ℕ)
    → let b = plan nntp db reserved scan pp false in
      (1 ≤ b.scan_workers)
      × (1 ≤ b.post_process_workers)
      × (b.scan_workers + b.post_process_workers ≤ max 2 b.db_pipeline_budget)
      × (b.overcommit ≡ false)
unfolding plan
plan_auto nntp db reserved scan pp =
    let bounds =
      fit_within_budget_bounds scan pp (if ltb (db - reserved) 1 then 1 else db - reserved) in
    (bounds.0, bounds.1, bounds.2, refl)

plan_explicit :
    (nntp db reserved scan pp : ℕ)
    → let b = plan nntp db reserved scan pp true in
      (b.scan_workers ≡ scan)
      × (b.post_process_workers ≡ pp)
      × ((b.overcommit ≡ true) ↔ (b.db_pipeline_budget < b.scan_workers + b.post_process_workers))
unfolding plan
plan_explicit nntp db reserved scan pp = (refl, refl, (ltb→lt _ _, lt→ltb _ _))

plan_one :
    (nntp reserved scan pp : ℕ)
    → reserved < 1
    → let b = plan nntp 1 reserved scan pp false in
      (b.scan_workers + b.post_process_workers ≡ 2)
      × (b.db_pipeline_budget ≡ 1)
      × (b.overcommit ≡ false)
plan_one nntp reserved scan pp h =
    let split = plan_splits nntp 1 reserved scan pp false h in
    let auto = plan_auto nntp 1 reserved scan pp in (omega arith, omega arith, auto.3)

positive_or_pos : (d : ℕ) (n : ℤ) → 1 ≤ d → 1 ≤ positive_or d n
positive_or_pos d n h = ground arith

no_override : (s p : ℤ) → s ≤ℤ pos 0 → p ≤ℤ pos 0 → (is_override s || is_override p) ≡ false
no_override s p h k = ground arith

-- The plan keeps the pool sizes apart: what is reserved for the API and what the pipeline may use make
-- up the database pool, and the pipeline always has a connection.
pub compute_budget_splits :
    (nntp db reserved scan_override pp_override : ℤ)
    → let b = compute_budget nntp db reserved scan_override pp_override in
      (b.reserved_api_conns + b.db_pipeline_budget ≡ b.db_max_conns)
      × (1 ≤ b.db_pipeline_budget)
      × (b.db_max_conns ≡ positive_or 1 db)
unfolding compute_budget
compute_budget_splits nntp db reserved scan_override pp_override =
    let bounds = reserve_bounds reserved (positive_or 1 db) (positive_or_pos 1 db (omega arith)) in
    plan_splits _ (positive_or 1 db) (reserve reserved (positive_or 1 db)) _ _ _ bounds.0

-- Without overrides each stage gets a worker, the two together stay within the pipeline's budget (or
-- take two workers where it is one), and nothing is reported as overcommitted.
pub auto_plan :
    (nntp db reserved scan_override pp_override : ℤ)
    → scan_override ≤ℤ pos 0
    → pp_override ≤ℤ pos 0
    → let b = compute_budget nntp db reserved scan_override pp_override in
      (1 ≤ b.scan_workers)
      × (1 ≤ b.post_process_workers)
      × (b.scan_workers + b.post_process_workers ≤ max 2 b.db_pipeline_budget)
      × (b.overcommit ≡ false)
unfolding compute_budget
auto_plan nntp db reserved scan_override pp_override s p =
    rw (no_override scan_override pp_override s p) (plan_auto _ _ _ _ _)

-- An override is taken as it is, the other stage keeps its automatic count, and the plan is reported as
-- overcommitted exactly when the two exceed the pipeline's budget.
pub override_plan :
    (nntp db reserved pp_override : ℤ) (scan : ℕ)
    → 0 < scan
    → let b = compute_budget nntp db reserved (pos scan) pp_override in
      (b.scan_workers ≡ scan)
      × (b.post_process_workers ≡ positive_or (auto_pp (positive_or 1 nntp)) pp_override)
      × ((b.overcommit ≡ true) ↔ (b.db_pipeline_budget < b.scan_workers + b.post_process_workers))
unfolding compute_budget
override_plan nntp db reserved pp_override scan h =
    let given : positive_or (auto_scan (positive_or 1 nntp)) (pos scan) ≡ scan = ground arith in
    let marked : is_override (pos scan) ≡ true = ground arith in
    rw (marked, given) (plan_explicit _ _ _ _ _)

-- A database pool of one connection gives the two stages two workers with nothing reported: one more
-- than the pipeline's budget.
pub one_connection_overcommits :
    (nntp reserved scan_override pp_override : ℤ)
    → scan_override ≤ℤ pos 0
    → pp_override ≤ℤ pos 0
    → let b = compute_budget nntp (pos 1) reserved scan_override pp_override in
      (b.scan_workers + b.post_process_workers ≡ 2)
      × (b.db_pipeline_budget ≡ 1)
      × (b.overcommit ≡ false)
unfolding compute_budget
one_connection_overcommits nntp reserved scan_override pp_override s p =
    let none_left = reserve_bounds reserved 1 (omega arith) in
    rw (no_override scan_override pp_override s p) (
      plan_one (positive_or 1 nntp) (reserve reserved 1)
        (positive_or (auto_scan (positive_or 1 nntp)) scan_override)
        (positive_or (auto_pp (positive_or 1 nntp)) pp_override) none_left.0)
