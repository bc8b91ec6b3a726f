-- ===== src/Subject.antt =====
-- subject/: the agent under verification, behind an adapter.
pub mod Values
pub mod InProcess
