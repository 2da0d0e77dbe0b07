-- ===== src/Figures.antt =====
-- The scripts exp/<name>/runner.py over exp/common/runner_helper.py.
pub mod Phases
pub mod Table2
pub mod Table6
pub mod Fig10
pub mod Fig11a
pub mod Fig11b
pub mod Fig11c
pub mod Fig12
pub mod Fig13
pub mod Fig4a
pub mod Fig4b
pub mod Fig5a
pub mod Fig5b
pub mod Complete
pub mod Files
use fgnn_artifacts.Prelude.{String, List}
use fgnn_artifacts.Figures.Phases.{Phase}
use fgnn_artifacts.Figures.Table2.{table2_phases}
use fgnn_artifacts.Figures.Table6.{table6_phases}
use fgnn_artifacts.Figures.Fig10.{fig10_phases}
use fgnn_artifacts.Figures.Fig11a.{fig11a_phases}
use fgnn_artifacts.Figures.Fig11b.{fig11b_phases}
use fgnn_artifacts.Figures.Fig11c.{fig11c_phases}
use fgnn_artifacts.Figures.Fig12.{fig12_phases}
use fgnn_artifacts.Figures.Fig13.{fig13_phases}
use fgnn_artifacts.Figures.Fig4a.{fig4a_phases}
use fgnn_artifacts.Figures.Fig4b.{fig4b_phases}
use fgnn_artifacts.Figures.Fig5a.{fig5a_phases}
use fgnn_artifacts.Figures.Fig5b.{fig5b_phases}

pub data Script : Type 0 where
  table2 table6 fig10 fig11a fig11b fig11c fig12 fig13 fig4a fig4b fig5a fig5b : Script

-- The lists of a script. The argument is the directory in the default of RunConfig, which has the
-- time in its name.
unfoldable pub phases_of : Script → String → List Phase
unfolding table2_phases table6_phases fig10_phases fig11a_phases fig11b_phases fig11c_phases
    fig12_phases fig13_phases fig4a_phases fig4b_phases fig5a_phases fig5b_phases
phases_of table2 = table2_phases
phases_of table6 = table6_phases
phases_of fig10 = fig10_phases
phases_of fig11a = fig11a_phases
phases_of fig11b = fig11b_phases
phases_of fig11c = fig11c_phases
phases_of fig12 = fig12_phases
phases_of fig13 = fig13_phases
phases_of fig4a = fig4a_phases
phases_of fig4b = fig4b_phases
phases_of fig5a = fig5a_phases
phases_of fig5b = fig5b_phases
