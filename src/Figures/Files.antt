-- ===== src/Figures/Files.antt =====
-- The files that the scripts over exp/common/runner_helper.py write their logs to.
use fgnn_artifacts.Prelude.{repeated, ℕ, String, ◌≡◌, refl, text_discrete, List, map, flat_map}
use fgnn_artifacts.Prelude.Text.{show, join}
use fgnn_artifacts.RunnerHelper.RunConfig.{get_log_fname}
use fgnn_artifacts.Figures.{
  Script, table2, table6, fig10, fig11a, fig11b, fig11c, fig12, fig13, fig4a, fig4b, fig5a, fig5b,
  phases_of,
}
use fgnn_artifacts.Figures.Phases.{Phase}

abbrev pub names_of : Phase → List String
names_of phase = map (λ c. (get_log_fname c).0) phase.configs

abbrev pub logs_of : Script → String → List String
logs_of script log_dir = flat_map names_of (phases_of script log_dir)

-- How many logs a script loses.
abbrev pub overwritten : Script → ℕ
overwritten fig11a = 3
overwritten fig11b = 3
overwritten fig11c = 3
overwritten fig4a = 1
overwritten fig4b = 1
overwritten fig5a = 1
overwritten fig5b = 1
overwritten _ = 0

-- Over all the lists of a script, the number of configurations whose log file is written again by a
-- later configuration is 0 for table2, table6, fig10, fig12 and fig13, so that no two of their
-- configurations share a file; it is 3 for fig11a, fig11b and fig11c, which sweep over three
-- policies, and 1 for fig4a, fig4b, fig5a and fig5b, which sweep with one.
pub repeated-logs_of :
    (script : Script) (log_dir : String) → repeated (logs_of script log_dir) ≡ overwritten script
unfolding phases_of get_log_fname show join text_discrete
repeated-logs_of table2 log_dir = refl
repeated-logs_of table6 log_dir = refl
repeated-logs_of fig10 log_dir = refl
repeated-logs_of fig11a log_dir = refl
repeated-logs_of fig11b log_dir = refl
repeated-logs_of fig11c log_dir = refl
repeated-logs_of fig12 log_dir = refl
repeated-logs_of fig13 log_dir = refl
repeated-logs_of fig4a log_dir = refl
repeated-logs_of fig4b log_dir = refl
repeated-logs_of fig5a log_dir = refl
repeated-logs_of fig5b log_dir = refl
