-- ===== src/Engine.antt =====
-- trading/engine/order_book_manager.py and trading/engine/matcher.py: the books of all tickers,
-- and the registry of orders above them.
pub mod Manager
pub mod Matcher
pub mod Tickers
pub mod Routing
pub mod Execution
pub mod Initial
pub mod Eviction
pub mod Agreement
pub mod Registry
pub mod Upkeep
pub mod Samples
mod Tests
