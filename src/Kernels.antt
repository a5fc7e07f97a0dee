-- ===== src/Kernels.antt =====
-- src/graphed_executors/local/_shuffle_kernels.py: the kernels that the exchange engines share.
pub mod Backend
pub mod Assign
pub mod Coalesce
pub mod Budget
pub mod Tally
pub mod Join
pub mod Gather
pub mod Stage2
