-- ===== src/Fabric.antt =====
-- Environment Fabric composition (src/avp_ref/fabric): typed contract, resources, coordinator.
pub mod Contract
pub mod Resource
pub mod Composition
pub mod Execution
