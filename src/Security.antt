-- ===== src/Security.antt =====
-- security/: what a Subject may call.
pub mod Policy
pub mod Adapter
