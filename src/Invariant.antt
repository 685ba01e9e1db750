-- ===== src/Invariant.antt =====
-- What holds of the tables (nyumt-proto/src/database) whatever is written to them.
pub mod Distinct
pub mod Keys
pub mod Statements
pub mod References
pub mod Orders
pub mod Handlers
pub mod Events
pub mod Reached
