-- ===== src/Gcrypto.antt =====
-- Signatures of many validators on one message, gcrypto.
pub mod SimpleProof
pub mod Verified
mod Examples
