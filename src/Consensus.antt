-- ===== src/Consensus.antt =====
-- nyumt-node/src/master: how the master nodes agree on the next block.
pub mod Types
pub mod Events
pub mod Publish
pub mod Submit
pub mod Rounds
pub mod Append
pub mod Growth
pub mod Tally
pub mod Follower
pub mod First
pub mod Genesis
pub mod Linked
