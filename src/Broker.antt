-- ===== src/Broker.antt =====
-- sandbox_broker.py: the requests of a connection, its handling, and the slots that connections share.
pub mod Request
pub mod Handler
pub mod Execution
pub mod Slots
pub mod Lifecycle
pub mod Closing
mod Tests
