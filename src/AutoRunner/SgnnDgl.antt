-- ===== src/AutoRunner/SgnnDgl.antt =====
-- The functions *_test of example/auto_runner/run_sgnn_dgl.py, in the order of the file.
pub mod Breakdown
pub mod OverallPerf
pub mod Scalability
pub mod OneGpu
use fgnn_artifacts.Prelude.{List, [], ◌∷◌}
use fgnn_artifacts.AutoRunner.Testing.{Test}
use fgnn_artifacts.AutoRunner.SgnnDgl.Breakdown.{breakdown_test}
use fgnn_artifacts.AutoRunner.SgnnDgl.OverallPerf.{overall_perf_test}
use fgnn_artifacts.AutoRunner.SgnnDgl.Scalability.{scalability_test}
use fgnn_artifacts.AutoRunner.SgnnDgl.OneGpu.{one_gpu_test}

unfoldable pub sgnn_dgl_tests : List Test
unfolding breakdown_test overall_perf_test scalability_test one_gpu_test
sgnn_dgl_tests = breakdown_test ∷ overall_perf_test ∷ scalability_test ∷ one_gpu_test ∷ []
