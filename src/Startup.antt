-- ===== src/Startup.antt =====
-- main.py: how the state is recovered when the service starts.
pub mod Steps
pub mod Positions
pub mod Recovered
pub mod Replay
pub mod Replica
pub mod Restart
pub mod Recovery
pub mod Snapshots
pub mod Responses
mod Tests
mod Interleaving
