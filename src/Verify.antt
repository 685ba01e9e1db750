-- ===== src/Verify.antt =====
-- nyumt-proto/src/block.rs: whether a signed request may enter the chain.
pub mod Check
pub mod Authority
pub mod Acceptance
pub mod Soundness
