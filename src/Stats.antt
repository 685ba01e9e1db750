-- ===== src/Stats.antt =====
-- nyumt-proto/src/stats: what a node measures, and the report that it makes of it.
pub mod Types
pub mod Oids
pub mod Usage
pub mod Report
pub mod Answers
pub mod Complete
