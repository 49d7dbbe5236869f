-- ===== src/Lifecycle.antt =====
-- orchestration/run_lifecycle.py: the strict fold of a run's event stream.
pub mod State
pub mod Fields
pub mod Guards
pub mod Kind
pub mod Lease
pub mod Attempt
pub mod Cleanup
pub mod Terminal
pub mod Fold
pub mod Nodes
pub mod Step
pub mod Run
pub mod Finish
pub mod Fence
pub mod Stopped
pub mod Samples
pub mod Tests
