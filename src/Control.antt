-- ===== src/Control.antt =====
-- ipc_server.py: the guard of the control plane and the queue of user tasks.
pub mod Guard
pub mod Access
pub mod Notifications
pub mod Longest
pub mod Inject
mod Tests
