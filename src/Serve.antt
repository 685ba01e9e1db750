-- ===== src/Serve.antt =====
-- nyumt-node/src/master_serve: what a master node sends to its clients, and how it takes their requests.
pub mod Stream
pub mod Batches
mod Endings
pub mod Latest
pub mod Requests
pub mod Forwarding
pub mod Reports
pub mod Delivery
pub mod Sessions
pub mod Links
pub mod Handling
mod Calls
mod Tasks
pub mod Shut
pub mod Closed
