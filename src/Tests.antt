-- ===== src/Tests.antt =====
-- Runs of the operations on concrete inputs.
pub mod Ciphers
pub mod Inputs
pub mod Nodes
pub mod Clients
pub mod Accesses
pub mod SimpleInputs
pub mod SimpleAccesses
pub mod SimpleRuns
pub mod Starts
