-- ===== src/Tests.antt =====
-- Runs of the modelled code at concrete inputs.
mod Lifecycle
mod Oracle
mod Storage
mod Composition
mod Attestation
mod Environments
mod Guarding
mod Subjects
mod Printing
mod Gateway
mod Tables
