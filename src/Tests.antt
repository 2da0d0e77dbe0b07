-- ===== src/Tests.antt =====
-- Examples: the theorems applied at concrete inputs.
pub mod Memory
pub mod Selecting
pub mod Tables
pub mod Running
pub mod Processes
pub mod Interleaving
pub mod Sweeping
pub mod Training
pub mod Switching
