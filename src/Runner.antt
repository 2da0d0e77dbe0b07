-- ===== src/Runner.antt =====
-- exp/common/runner_helper2.py: lists of run configurations, their command lines, the runs and
-- the tables of parsed results.
pub mod Value
pub mod Os
pub mod LogTable
pub mod RunConfig
pub mod ConfigList
pub mod Execution
pub mod Report
pub mod Pipeline
