-- ===== src/Revocation.antt =====
-- skill_revocation.py: the signed list of revoked skills, its checks, its cache and its
-- installation. JSON, base64 and Ed25519 are library code and enter as the record `Codec`.
pub mod Listing
pub mod Payload
pub mod Document
pub mod Cache
pub mod Order
pub mod Bounds
pub mod Install
pub mod InForce
mod Tests
