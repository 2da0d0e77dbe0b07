-- ===== src/AutoRunner/Samgraph.antt =====
-- The functions *_test of example/auto_runner/run_samgraph.py, in the order of the file.
pub mod Breakdown
pub mod Overall
pub mod GcnScalability
pub mod GcnTwitterScalability
pub mod PinsageScalability
use fgnn_artifacts.Prelude.{List, [], ◌∷◌}
use fgnn_artifacts.AutoRunner.Testing.{Test}
use fgnn_artifacts.AutoRunner.Samgraph.Breakdown.{breakdown_test}
use fgnn_artifacts.AutoRunner.Samgraph.Overall.{overall_test}
use fgnn_artifacts.AutoRunner.Samgraph.GcnScalability.{gcn_scalability_test}
use fgnn_artifacts.AutoRunner.Samgraph.GcnTwitterScalability.{gcn_twitter_scalability_test}
use fgnn_artifacts.AutoRunner.Samgraph.PinsageScalability.{pinsage_scalability_test}

unfoldable pub samgraph_tests : List Test
unfolding breakdown_test overall_test gcn_scalability_test gcn_twitter_scalability_test
    pinsage_scalability_test
samgraph_tests =
    breakdown_test ∷ overall_test ∷ gcn_scalability_test ∷ gcn_twitter_scalability_test
    ∷ pinsage_scalability_test ∷ []
