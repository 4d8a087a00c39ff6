-- ===== src/Learner.antt =====
-- The part of src/learner that hands out workloads.
pub mod WorkloadPool
