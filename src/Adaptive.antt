-- ===== src/Adaptive.antt =====
-- src/subllm/adaptive.py: requests by model class, with shared observations of what works.
pub mod Config
pub mod Classes
pub mod Observed
pub mod Rank
pub mod Turn
pub mod Execute
pub mod Least
pub mod Steps
pub mod Careful
pub mod Loop
pub mod Strong
pub mod Remembered
pub mod Tests
