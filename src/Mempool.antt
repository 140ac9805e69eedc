-- ===== src/Mempool.antt =====
-- mempool/: the monitor of pending transactions with its circuit breaker, and the transaction pool.
pub mod Breaker
pub mod Monitor
pub mod Processing
pub mod Pool
mod Tests
