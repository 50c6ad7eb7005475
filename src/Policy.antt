-- ===== src/Policy.antt =====
-- src/subllm/policy.py: the tables that the program is shipped with.
pub mod Providers
pub mod Models
pub mod Applications
pub mod Candidates
pub mod Routes
pub mod Overlay
pub mod Registered
pub mod Kept
pub mod Defaults
pub mod Tests
