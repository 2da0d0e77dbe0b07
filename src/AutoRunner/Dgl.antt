-- ===== src/AutoRunner/Dgl.antt =====
-- The functions *_test of example/auto_runner/run_dgl.py, in the order of the file.
pub mod Motivation
pub mod Breakdown
pub mod PinsageBreakdown
pub mod Scalability
pub mod ScalabilityTwitter
pub mod OverallPerf
pub mod PinsageOverall
pub mod CpuOverallPerf
pub mod Motivation2
use fgnn_artifacts.Prelude.{List, [], ◌∷◌}
use fgnn_artifacts.AutoRunner.Testing.{Test}
use fgnn_artifacts.AutoRunner.Dgl.Motivation.{motivation_test}
use fgnn_artifacts.AutoRunner.Dgl.Breakdown.{breakdown_test}
use fgnn_artifacts.AutoRunner.Dgl.PinsageBreakdown.{pinsage_breakdown_test}
use fgnn_artifacts.AutoRunner.Dgl.Scalability.{scalability_test}
use fgnn_artifacts.AutoRunner.Dgl.ScalabilityTwitter.{scalability_twitter_test}
use fgnn_artifacts.AutoRunner.Dgl.OverallPerf.{overall_perf_test}
use fgnn_artifacts.AutoRunner.Dgl.PinsageOverall.{pinsage_overall_test}
use fgnn_artifacts.AutoRunner.Dgl.CpuOverallPerf.{cpu_overall_perf_test}
use fgnn_artifacts.AutoRunner.Dgl.Motivation2.{motivation2_test}

unfoldable pub dgl_tests : List Test
unfolding motivation_test breakdown_test pinsage_breakdown_test scalability_test
    scalability_twitter_test overall_perf_test pinsage_overall_test cpu_overall_perf_test
    motivation2_test
dgl_tests =
    motivation_test ∷ breakdown_test ∷ pinsage_breakdown_test ∷ scalability_test
    ∷ scalability_twitter_test ∷ overall_perf_test ∷ pinsage_overall_test ∷ cpu_overall_perf_test
    ∷ motivation2_test ∷ []
