-- ===== src/Experiments.antt =====
-- The experiment scripts exp/table1, table4, table5, fig14a, fig14b and fig15.
pub mod Testing
pub mod Table1
pub mod Table4
pub mod Table5
pub mod Fig14a
pub mod Fig14b
pub mod Fig15
pub mod Complete
use fgnn_artifacts.Prelude.{List}
use fgnn_artifacts.Experiments.Testing.{Test}
use fgnn_artifacts.Experiments.Table1.{table1_tests}
use fgnn_artifacts.Experiments.Table4.{table4_tests}
use fgnn_artifacts.Experiments.Table5.{table5_tests}
use fgnn_artifacts.Experiments.Fig14a.{fig14a_tests}
use fgnn_artifacts.Experiments.Fig14b.{fig14b_tests}
use fgnn_artifacts.Experiments.Fig15.{fig15_tests}

pub data Script : Type 0 where
  table1 table4 table5 fig14a fig14b fig15 : Script

-- The tests of each script.
unfoldable pub tests_of : Script → List Test
unfolding table1_tests table4_tests table5_tests fig14a_tests fig14b_tests fig15_tests
tests_of table1 = table1_tests
tests_of table4 = table4_tests
tests_of table5 = table5_tests
tests_of fig14a = fig14a_tests
tests_of fig14b = fig14b_tests
tests_of fig15 = fig15_tests
