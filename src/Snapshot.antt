-- ===== src/Snapshot.antt =====
-- cli_snapshot.py: the snapshot before a mutation, and the pruning of old ones.
pub mod Command
pub mod Protection
mod Tests
