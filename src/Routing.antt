-- ===== src/Routing.antt =====
-- src/subllm/resolver.py, provider_order.py and the test of a credential: the routes of a function.
pub mod Errors
pub mod Credentials
pub mod Order
pub mod Setup
pub mod Configure
pub mod Configured
pub mod Resolve
pub mod Validate
pub mod Sound
pub mod Sanctioned
pub mod Allowed
pub mod Ranked
pub mod Follows
pub mod Keys
pub mod Listed
pub mod Pick
pub mod Parse
pub mod Shipped
pub mod Tests
