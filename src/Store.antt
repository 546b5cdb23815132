-- ===== src/Store.antt =====
-- internal/store: the tables of which the statements are modelled.
pub mod Jobs
pub mod GroupHealth
pub mod Backoff
