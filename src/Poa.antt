-- ===== src/Poa.antt =====
-- src/subllm/poa: the closed process registry, the event journal and the bus of queries and
-- commands.
pub mod Refs
pub mod Registry
pub mod Tables
pub mod Store
pub mod Exec
pub mod Inputs
pub mod Plan
pub mod Commands
pub mod Check
pub mod Bus
pub mod Queries
pub mod Closed
pub mod Journal
pub mod Keeps
pub mod Invariant
pub mod Repeat
pub mod Editor
pub mod Gateway
pub mod Secrets
pub mod Complete
mod Tests
