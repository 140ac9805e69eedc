-- ===== src/Network.antt =====
-- mempool/network/: the index of pending transactions.
pub mod Index
pub mod Indexer
pub mod Dpdk
pub mod Standard
pub mod Optimizer
mod Tests
