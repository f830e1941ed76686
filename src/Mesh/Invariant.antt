-- ===== src/Mesh/Invariant.antt =====
-- The well-formedness of the state, operation by operation.
pub mod Database
pub mod Admin
pub mod Ports
pub mod Radio
pub mod Phone
pub mod Periodic
pub mod Run
pub mod Start
