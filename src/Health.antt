-- ===== src/Health.antt =====
-- src/subllm/health.py: the provider health store and its circuit breaker.
pub mod Entry
pub mod File
pub mod Store
pub mod Routing
pub mod Circuit
pub mod Bounds
pub mod RoundTrip
pub mod Orders
pub mod Names
pub mod Hosts
pub mod Leaves
mod Tests
