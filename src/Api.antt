-- ===== src/Api.antt =====
-- trading/api: the state that the handlers of requests share.
pub mod Schemas
pub mod Idempotency
pub mod Consumer
pub mod Rounds
pub mod Requests
pub mod Validation
pub mod Resubmission
pub mod Broadcaster
pub mod Websocket
pub mod Delivery
pub mod Notifications
pub mod BookView
pub mod Reads
pub mod Shown
pub mod Sessions
pub mod Service
pub mod Logging
pub mod Answers
pub mod Endings
pub mod Samples
mod Tests
pub mod Preserves
