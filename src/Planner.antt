-- ===== src/Planner.antt =====
-- task_planner.py and the checks of foundry_action_bridge.py: what a model proposes for a query, and the
-- plan that the host makes of it.
pub mod Browser
pub mod Advice
pub mod Template
pub mod Plan
pub mod Policy
pub mod Limits
pub mod Advisory
mod Tests
