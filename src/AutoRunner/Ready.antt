-- ===== src/AutoRunner/Ready.antt =====
-- Every test of the scripts of example/auto_runner is ready to run.
use fgnn_artifacts.Prelude.{◌≡◌, refl, true, List, all_of, text_discrete}
use fgnn_artifacts.Runner.Value.{is_part}
use fgnn_artifacts.Runner.RunConfig.Commands.{flags_are_texts}
use fgnn_artifacts.AutoRunner.Testing.{Test, test_is_ready}
use fgnn_artifacts.AutoRunner.Samgraph.{samgraph_tests}
use fgnn_artifacts.AutoRunner.Sgnn.{sgnn_tests}
use fgnn_artifacts.AutoRunner.Dgl.{dgl_tests}
use fgnn_artifacts.AutoRunner.Pyg.{pyg_tests}
use fgnn_artifacts.AutoRunner.SgnnDgl.{sgnn_dgl_tests}

pub data Script : Type 0 where
  run_samgraph run_sgnn run_dgl run_pyg run_sgnn_dgl : Script

unfoldable pub tests_of : Script → List Test
unfolding samgraph_tests sgnn_tests dgl_tests pyg_tests sgnn_dgl_tests
tests_of run_samgraph = samgraph_tests
tests_of run_sgnn = sgnn_tests
tests_of run_dgl = dgl_tests
tests_of run_pyg = pyg_tests
tests_of run_sgnn_dgl = sgnn_dgl_tests

-- In each script under example/auto_runner, each test's table and list are built without an
-- exception, every command line of the list can be formed, each cell of the table and its column
-- exist, and each row definition of the table matches exactly one configuration of the list, as the
-- parsing of the logs asserts.
pub tests_of-ready : (script : Script) → all_of test_is_ready (tests_of script) ≡ true
unfolding test_is_ready tests_of text_discrete flags_are_texts is_part
tests_of-ready run_samgraph = refl
tests_of-ready run_sgnn = refl
tests_of-ready run_dgl = refl
tests_of-ready run_pyg = refl
tests_of-ready run_sgnn_dgl = refl
