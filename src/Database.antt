-- ===== src/Database.antt =====
-- The SQLite tables of a master node and of a client, and the statements that the program sends
-- (nyumt-proto/src/database and nyumt-proto/src/db_calls.rs).
pub mod Tables
pub mod Chain
pub mod Users
pub mod Nodes
pub mod Configs
pub mod Reports
