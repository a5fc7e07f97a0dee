-- ===== src/Submit.antt =====
-- src/graphed_executors/submit/engine.py: the runs of a plan on a submit backend.
pub mod Futures
pub mod Fixed
pub mod Adaptive
pub mod Stages
pub mod Windowed
pub mod Keys
pub mod Varint
