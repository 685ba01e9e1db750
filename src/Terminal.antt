-- ===== src/Terminal.antt =====
-- nyumt-client-cli/src: the command line client.
pub mod Sessions
pub mod Names
pub mod Commands
pub mod Sent
