-- ===== src/Server.antt =====
-- internal/server: the concurrency plan of the pipeline.
pub mod Budget
