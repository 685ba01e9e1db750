-- ===== src/Gossip.antt =====
-- nyumt-node/src/master/net_behavior.rs: what a master node does with the messages of the others.
pub mod Receive
pub mod Ballots
