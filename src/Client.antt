-- ===== src/Client.antt =====
-- sandbox_client.py: the unprivileged client of the sandbox broker.
pub mod Answer
pub mod Execution
mod Tests
