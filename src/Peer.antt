-- ===== src/Peer.antt =====
-- src/graphed_executors/local/_peer_tree.py: the reduction across the workers.
pub mod Bounds
pub mod Reducer
pub mod Overlay
pub mod Driver
pub mod Actor
pub mod System
pub mod Control
