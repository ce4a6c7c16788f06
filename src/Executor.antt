-- ===== src/Executor.antt =====
-- layer4-executor/src/executor.py
pub mod Order
pub mod Validate
pub mod Valid
pub mod Effect
pub mod Runner
pub mod Observe
pub mod Step
pub mod Plan
pub mod Close
pub mod Recover
pub mod Poll
