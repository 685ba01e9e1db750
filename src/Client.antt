-- ===== src/Client.antt =====
-- nyumt-client-core/src/client: what a client does with what its master node sends.
pub mod Sync
pub mod Outcomes
pub mod Oids
pub mod Names
pub mod Plot
pub mod Points
pub mod Orders
pub mod Packing
pub mod Catalog
pub mod Channel
pub mod Answers
pub mod Waits
pub mod Start
