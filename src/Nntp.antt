-- ===== src/Nntp.antt =====
-- internal/nntp: the connections to the news servers.
pub mod Errors
pub mod Circuit
pub mod Semaphore
pub mod Pool
pub mod Failover
pub mod Overview
pub mod Conn
