-- ===== src/Core.antt =====
-- Package core: the node, its handlers, its protocol and its failure detector.
pub mod Node
pub mod Notes
pub mod Accusations
pub mod Merge
pub mod Spread
pub mod Detector
pub mod Lifecycle
pub mod Messages
pub mod Run
pub mod Safety
pub mod Visualizer
