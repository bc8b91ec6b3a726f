-- ===== src/Trust.antt =====
-- trust/: portable Artifact trust values and the evaluator of attestations.
pub mod Models
pub mod Verifier
pub mod Publisher
