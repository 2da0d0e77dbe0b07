-- ===== src/AutoRunner/Sgnn.antt =====
-- The functions *_test of example/auto_runner/run_sgnn.py, in the order of the file.
pub mod Motivation
pub mod OverallPipeline
pub mod OverallNoPipeline
pub mod Breakdown
pub mod GcnScalability
pub mod GcnTwitterScalability
pub mod PinsageScalability
use fgnn_artifacts.Prelude.{List, [], ◌∷◌}
use fgnn_artifacts.AutoRunner.Testing.{Test}
use fgnn_artifacts.AutoRunner.Sgnn.Motivation.{motivation_test}
use fgnn_artifacts.AutoRunner.Sgnn.OverallPipeline.{overall_pipeline_test}
use fgnn_artifacts.AutoRunner.Sgnn.OverallNoPipeline.{overall_no_pipeline_test}
use fgnn_artifacts.AutoRunner.Sgnn.Breakdown.{breakdown_test}
use fgnn_artifacts.AutoRunner.Sgnn.GcnScalability.{gcn_scalability_test}
use fgnn_artifacts.AutoRunner.Sgnn.GcnTwitterScalability.{gcn_twitter_scalability_test}
use fgnn_artifacts.AutoRunner.Sgnn.PinsageScalability.{pinsage_scalability_test}

unfoldable pub sgnn_tests : List Test
unfolding motivation_test overall_pipeline_test overall_no_pipeline_test breakdown_test
    gcn_scalability_test gcn_twitter_scalability_test pinsage_scalability_test
sgnn_tests =
    motivation_test ∷ overall_pipeline_test ∷ overall_no_pipeline_test ∷ breakdown_test
    ∷ gcn_scalability_test ∷ gcn_twitter_scalability_test ∷ pinsage_scalability_test ∷ []
