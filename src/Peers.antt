-- ===== src/Peers.antt =====
-- The requests between master nodes and plain nodes.
pub mod Messages
pub mod Hub
pub mod Plain
pub mod Loop
pub mod Swarm
mod Addresses
pub mod Dispatch
pub mod Updates
pub mod Preserve
pub mod Frame
pub mod Agree
pub mod Subscribed
pub mod Reach
pub mod Restart
pub mod Stall
pub mod Collector
pub mod Follow
