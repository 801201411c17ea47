-- ===== src/Confirmation.antt =====
-- action_confirmation.py: the counter of confirmed runs, the decision on an action, and the record of
-- its outcome.
pub mod Counter
pub mod Decision
pub mod Approval
mod Tests
