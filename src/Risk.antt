-- ===== src/Risk.antt =====
-- trading/risk/checker.py: the pre-trade checks and the exposure that they read.
pub mod Checker
pub mod Overflow
pub mod Exposure
pub mod Positions
pub mod Cancellation
mod Tests
