-- ===== src/Bridge.antt =====
-- computer_use_bridge.py: a desktop task, its route, the visual loop that carries it out, and the retries
-- of one that fails.
pub mod Task
pub mod Attempts
pub mod Judging
pub mod Retries
pub mod Progress
pub mod Action
pub mod Accepted
pub mod Confinement
pub mod Loop
pub mod Confirmed
pub mod Steps
pub mod Stalling
mod Tests
