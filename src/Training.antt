-- ===== src/Training.antt =====
-- The options of the training scripts of example/samgraph.
pub mod Integers
pub mod Constants
pub mod Config
pub mod Checks
pub mod Devices
