-- ===== src/Persistence.antt =====
-- trading/persistence: the event log and the snapshots.
pub mod EventLog
pub mod Replay
mod Tests
pub mod Json
pub mod Snapshot
pub mod Values
pub mod Filling
pub mod Recovery
