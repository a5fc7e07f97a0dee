-- ===== src/Reduce.antt =====
-- src/graphed_executors/local/_reduce.py: the fixed combine tree and its reducers.
pub mod Tree
pub mod Fold
pub mod Lazy
pub mod Plan
pub mod Chain
pub mod Eager
