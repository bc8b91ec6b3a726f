-- ===== src/Runtime.antt =====
-- The Episode runtime (src/avp_ref/runtime and src/avp_ref/events.py): the lifecycle relation, its
-- records, and the Episode object that carries both.
pub mod State
pub mod Lifecycle
pub mod Acceptance
pub mod Record
pub mod Evaluation
pub mod Episode
pub mod Actions
