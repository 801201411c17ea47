-- ===== src/Consent.antt =====
-- compliance_executor.py: the signed ledger of consent and the telemetry that it governs.
pub mod Store
pub mod Ledger
pub mod Chain
pub mod Recording
pub mod Commitment
pub mod Telemetry
mod Tests
