-- ===== src/OrderBook.antt =====
-- trading/engine/order_book.py: the order book of one ticker.
pub mod Levels
pub mod Matching
pub mod Resting
pub mod Trades
pub mod Fills
pub mod FillQueue
pub mod Side
pub mod Best
pub mod Quotes
pub mod Sweep
pub mod Book
pub mod Validity
pub mod Exhausted
pub mod Limit
pub mod Executes
pub mod Orders
pub mod Priority
pub mod Termination
pub mod Removal
pub mod Cancel
pub mod Members
pub mod Clock
