-- ===== src/Proto.antt =====
-- nyumt-proto/src: the messages, the configuration, and what the crate takes from other crates.
pub mod Types
pub mod External
pub mod Config
pub mod Keys
