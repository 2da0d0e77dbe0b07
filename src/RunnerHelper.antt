-- ===== src/RunnerHelper.antt =====
-- exp/common/runner_helper.py: the runner of the experiments that sweep over cache sizes.
pub mod Doubles
pub mod Options
pub mod RunConfig
pub mod Commands
pub mod Execution
pub mod ConfigList
pub mod Total
pub mod Logs
pub mod Sweeps
