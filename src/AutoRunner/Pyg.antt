-- ===== src/AutoRunner/Pyg.antt =====
-- The functions *_test of example/auto_runner/run_pyg.py, in the order of the file.
pub mod OverallPerf
pub mod Breakdown
use fgnn_artifacts.Prelude.{List, [], ◌∷◌}
use fgnn_artifacts.AutoRunner.Testing.{Test}
use fgnn_artifacts.AutoRunner.Pyg.OverallPerf.{overall_perf_test}
use fgnn_artifacts.AutoRunner.Pyg.Breakdown.{breakdown_test}

unfoldable pub pyg_tests : List Test
unfolding overall_perf_test breakdown_test
pyg_tests = overall_perf_test ∷ breakdown_test ∷ []
