-- ===== src/Tests.antt =====
-- Runs of the model and instances of the theorems, on small data.
mod Sample
mod Orders
mod Blocks
mod Network
mod Reports
mod Clients
mod Peers
mod Starts
mod Replicas
mod Links
