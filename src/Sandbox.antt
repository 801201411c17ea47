-- ===== src/Sandbox.antt =====
-- sandbox.py: the checks of a script, the bounded log, and one run in a container.
pub mod Script
pub mod Logs
pub mod Engine
pub mod Cleanup
pub mod Stale
mod Tests
