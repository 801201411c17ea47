-- ===== src/Router.antt =====
-- hybrid_router.py: the endpoint check, the tiers, and an inference with its fallbacks.
pub mod Endpoint
pub mod Completion
pub mod Routing
mod Tests
