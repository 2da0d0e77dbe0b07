-- ===== src/AutoRunner.antt =====
-- The scripts of example/auto_runner.
pub mod Datasets
pub mod Common
pub mod Testing
pub mod Samgraph
pub mod Sgnn
pub mod Dgl
pub mod Pyg
pub mod SgnnDgl
pub mod Ready
