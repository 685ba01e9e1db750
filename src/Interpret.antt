-- ===== src/Interpret.antt =====
-- nyumt-proto/src/db.rs: what the orders of a block do to the tables.
pub mod Execute
pub mod Registry
pub mod Updates
pub mod Rows
pub mod Entities
pub mod Refinement
pub mod Blocks
pub mod Shared
