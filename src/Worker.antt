-- ===== src/Worker.antt =====
-- internal/worker: the pipeline's loops.
pub mod ErrorLog
pub mod Schedule
pub mod Jobs
pub mod Triggers
pub mod Stages
pub mod Passes
