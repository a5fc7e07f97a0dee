-- ===== src/Dask.antt =====
-- src/graphed_executors/dask_backend/transport.py: what a worker's transport plugin holds for a run.
pub mod Plane
