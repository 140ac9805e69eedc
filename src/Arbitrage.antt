-- ===== src/Arbitrage.antt =====
-- strategies/arbitrage/detector.go and mempool/analyzer.go: the search for arbitrage over the
-- exchanges and the choice of a route.
pub mod Routes
pub mod Elements
pub mod Detector
pub mod Analyzer
pub mod Best
pub mod Rates
pub mod Spreads
mod Tests
