-- ===== src/Environment.antt =====
-- environment/ and world.py: the reference Environment Adapter over the commerce world.
pub mod World
pub mod Values
pub mod Session
pub mod Adapter
