-- ===== src/Telegram.antt =====
-- telegram_gateway.py: the pieces that a long message is sent in.
pub mod Chunks
pub mod Splitting
pub mod Polling
mod Tests
