-- ===== src/Client.antt =====
-- src/subllm/client_routes.py: `complete` and its failover over the configured routes.
pub mod Outcome
pub mod Vision
pub mod Attempt
pub mod Routes
pub mod Failover
pub mod Complete
mod Tests
