-- ===== src/Executor.antt =====
-- host_executor.py: the one privileged intent, its execution under audit and snapshot, and the peers
-- that may ask for it.
pub mod Output
pub mod Intent
pub mod Dispatch
pub mod Privilege
pub mod Success
pub mod Peer
pub mod Socket
pub mod Listening
mod Tests
