-- ===== src/Replication.antt =====
-- Master node and client together: the tables of a client that follows the chain of a master node.
pub mod Commits
pub mod Follows
pub mod Stored
pub mod Served
pub mod Maximum
pub mod Started
pub mod Reports
