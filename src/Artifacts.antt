-- ===== src/Artifacts.antt =====
-- Content-addressed Artifact storage (src/avp_ref/artifacts): identities, and the in-memory store.
pub mod Refs
pub mod Stream
pub mod Store
