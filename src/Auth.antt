-- ===== src/Auth.antt =====
-- internal/auth: request budgets, the API-key cache, the service over both, and its middleware.
pub mod RateLimit
pub mod KeyCache
pub mod Service
pub mod Middleware
