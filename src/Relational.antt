-- ===== src/Relational.antt =====
-- The reference model of relational state (relational.py).
pub mod Values
pub mod Lexical
pub mod Manifest
pub mod States
pub mod Resource
pub mod Diff
