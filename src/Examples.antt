-- ===== src/Examples.antt =====
-- Small concrete runs of every component, at which the theorems apply.
mod Rows
mod Reduction
mod ShuffleKernels
mod Dispatch
mod Exchanges
mod Gathers
mod Workers
mod Actors
mod Submits
mod Controls
mod Windows
mod Planes
