-- ===== src/Tests/Sweeping.antt =====
-- The scripts over exp/common/runner_helper.py and example/auto_runner, on the system of Memory.
use fgnn_artifacts.Prelude.{
  repeated, ◌≡◌, refl, true, false, List, [], ◌∷◌, String, some, ok, is_ok, map, all_of, get_elem?,
  arith,
}
use fgnn_artifacts.Prelude.Text.{show, join}
use fgnn_artifacts.Runner.Value.{gcn}
use fgnn_artifacts.RunnerHelper.Doubles.{percent_of, percent_of_lem}
use fgnn_artifacts.RunnerHelper.Options.{products, cache_by_presample_max, cache_by_degree}
use fgnn_artifacts.RunnerHelper.RunConfig.{RunConfig, run_config, get_log_fname, part}
use fgnn_artifacts.RunnerHelper.ConfigList.{ConfigList, percent_gen}
use fgnn_artifacts.RunnerHelper.Commands.{form_cmd}
use fgnn_artifacts.RunnerHelper.Logs.{Redirects, form_cmd_log}
use fgnn_artifacts.RunnerHelper.Total.{can_form, form_cmd-total, form_cmd-can_form}
use fgnn_artifacts.RunnerHelper.Sweeps.{get_elem?-percent_gen}
use fgnn_artifacts.Figures.{table6, fig11a, phases_of}
use fgnn_artifacts.Figures.Complete.{configs_of, lengths, main_total}
use fgnn_artifacts.Figures.Files.{logs_of, repeated-logs_of}
use fgnn_artifacts.Figures.Phases.{main}
use fgnn_artifacts.AutoRunner.Testing.{test_is_ready}
use fgnn_artifacts.AutoRunner.Ready.{run_pyg, tests_of, tests_of-ready}
use fgnn_artifacts.Tests.Memory.{memory, nothing}

tests_of-ready_example : all_of test_is_ready (tests_of run_pyg) ≡ true
tests_of-ready_example = tests_of-ready run_pyg

main_total_example :
    (css : List ConfigList) × (s' : memory.State) × (main memory
        ("-i" ∷ [])
        (phases_of table6 "run-logs")
        nothing
      ≡ ok (css, s'))
    × (lengths css ≡ lengths (map configs_of (phases_of table6 "run-logs")))
main_total_example = main_total memory table6 "run-logs" ("-i" ∷ []) nothing

repeated-logs_of_example : repeated (logs_of fig11a "run-logs") ≡ 3
repeated-logs_of_example = repeated-logs_of fig11a "run-logs"

percent_of_lem_example : percent_of 29 ≡ 28
percent_of_lem_example = percent_of_lem 29 (omega arith)

get_elem?-percent_gen_example : get_elem? (percent_gen 0 30 1) 29 ≡ some (part 29)
get_elem?-percent_gen_example = get_elem?-percent_gen 0 30 1 29 (omega arith)

abbrev degree : RunConfig
degree = run_config gcn products cache_by_degree (part 21) true "run-logs"

form_cmd-can_form_example :
    is_ok (form_cmd true (run_config gcn products cache_by_presample_max (part 21) true "run-logs"))
    ≡ false
unfolding run_config can_form
form_cmd-can_form_example =
    form_cmd-can_form true
      (run_config gcn products cache_by_presample_max (part 21) true "run-logs")

-- The log of a run with 21 % of the features in the cache.
degree_log :
    (get_log_fname degree).0
    ≡ "run-logs/samgraph_cache_pipeline_gcn_kKHop2_products_cache_by_degree_cache_rate_021_batch_size_8000"
unfolding run_config get_log_fname show join
degree_log = refl

degree-can_form : can_form degree ≡ true
unfolding run_config can_form
degree-can_form = refl

abbrev degree_cmd : (cmd : String) × (c' : RunConfig) × (form_cmd true degree ≡ ok (cmd, c'))
degree_cmd = form_cmd-total true degree degree-can_form

form_cmd_log_example : Redirects degree degree_cmd.0 degree_cmd.1
form_cmd_log_example = form_cmd_log degree degree_cmd.1 degree_cmd.0 degree_cmd.2
