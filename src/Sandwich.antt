-- ===== src/Sandwich.antt =====
-- strategies/sandwich/sandwich.go with its helpers in utils: the sandwich strategy.
pub mod Profit
pub mod Loan
pub mod Bundle
pub mod Attack
pub mod Failure
pub mod Hash
pub mod Threshold
mod Tests
