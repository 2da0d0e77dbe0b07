-- ===== src/Tests/Running.antt =====
-- Runs and reports, on the system of Memory.
use fgnn_artifacts.Prelude.{
  ℕ, zero, suc, ◌<◌, arith, ◌≡◌, refl, true, false, List, [], ◌∷◌, some, none, all_of, ok, is_ok,
  text_discrete,
}
use fgnn_artifacts.Prelude.Dict.{Dict, lookup, insert}
use fgnn_artifacts.Prelude.Text.{show, path_join}
use fgnn_artifacts.Runner.Value.{Value, same, gcn, products, run_ok, app, dataset}
use fgnn_artifacts.Runner.LogTable.{LogTable, log_table, cell?}
use fgnn_artifacts.Runner.Report.Filling.{Known}
use fgnn_artifacts.Runner.RunConfig.{RunConfig, form_cmd, run_config}
use fgnn_artifacts.Runner.RunConfig.Commands.{can_form, flags_are_texts, is_ok-form_cmd}
use fgnn_artifacts.Runner.ConfigList.{ConfigList, match}
use fgnn_artifacts.Runner.Execution.{
  run, run_all, output, status_lines, status_line, unlines, write_run_status, load_run_status,
}
use fgnn_artifacts.Runner.Execution.Options.{options_of}
use fgnn_artifacts.Runner.Execution.Total.{planned, run_total}
use fgnn_artifacts.Runner.Execution.Rerun.{succeeded, run_all-succeeded}
use fgnn_artifacts.Runner.Execution.Status.{with_statuses, load-write_run_status}
use fgnn_artifacts.Runner.Report.{is_filled, parse_logs}
use fgnn_artifacts.Runner.Report.Cores.{cores}
use fgnn_artifacts.Runner.Report.Growth.{HasOne}
use fgnn_artifacts.Runner.Report.Total.{Placed, parse_logs_total}
use fgnn_artifacts.Runner.Pipeline.{experiment, is_ready}
use fgnn_artifacts.Runner.Pipeline.Complete.{experiment_total}
use fgnn_artifacts.Experiments.{table1, tests_of}
use fgnn_artifacts.Experiments.Testing.{Globals, run_tests}
use fgnn_artifacts.Experiments.Complete.{FillsTables, script_completes}
use fgnn_artifacts.Tests.Selecting.{everything}
use fgnn_artifacts.Tests.Memory.{memory, nothing, memory-WritesAll, memory-ReadsBack}

abbrev globals : Globals
globals = record {
  here = "/fgnn/exp/table1";
  output_dir = "/fgnn/exp/table1/output";
  mock = false;
  num_epoch = 3;
}

script_completes_example :
    (results : List (ConfigList × LogTable)) × (s' : memory.State) × (run_tests memory globals
        (tests_of table1)
        nothing
      ≡ ok (results, s'))
    × FillsTables (tests_of table1) results
script_completes_example = script_completes memory memory-WritesAll globals table1 nothing

-- A table with one cell, for GCN on products.
unfoldable pub small_table : LogTable
unfolding log_table
small_table = record (log_table 1 1 []) {
  row_definitions = ((("app", app gcn) ∷ ("dataset", dataset products) ∷ []) ∷ []) ∷ [];
  col_definitions = some "epoch_time" ∷ [];
  is_finalized = true;
}

small_table-is_ready : is_ready small_table everything ≡ true
unfolding small_table is_ready text_discrete everything flags_are_texts insert same
small_table-is_ready = refl

experiment_total_example :
    (cl' : ConfigList) × (t' : LogTable) × (s' : memory.State) × (experiment memory "/fgnn/app"
        "/fgnn/logs" false small_table everything nothing
      ≡ ok ((cl', t'), s'))
    × (is_filled small_table t' ≡ true)
experiment_total_example =
    experiment_total memory memory-WritesAll "/fgnn/app" "/fgnn/logs" false small_table everything
      nothing small_table-is_ready

-- A configuration whose run has succeeded.
unfoldable pub gcn_done : RunConfig
unfolding run_config
gcn_done = record (run_config gcn (("dataset", dataset products) ∷ [])) {
  std_out_log = some "/fgnn/logs/test0.log";
  status = run_ok;
}

abbrev done_list : ConfigList
done_list = record { name = "done"; conf_list = gcn_done ∷ []; fail_count = 0 }

small_table-HasOne :
    (i j : ℕ)
    → i < small_table.num_row
    → j < small_table.num_col
    → (d : Dict Value) × (cell? small_table.row_definitions i j ≡ some d)
      × HasOne d done_list.conf_list
      × Known small_table.cells i j
      × Placed small_table i j
unfolding small_table text_discrete same lookup gcn_done log_table match insert
small_table-HasOne zero zero hi hj = (
  _,
  refl,
  record { conf = gcn_done; path = "/fgnn/logs/test0.log"; only = refl; logged = refl },
  (none, refl),
  ((_, refl), (_, refl), (_, refl)),
)
small_table-HasOne zero (suc j) hi hj = absurd (omega arith)
small_table-HasOne (suc i) j hi hj = absurd (omega arith)

parse_logs_total_example :
    (cl' : ConfigList) × (t' : LogTable) × (s' : memory.State) × (parse_logs memory small_table
        "/fgnn/logs" " " " " " " done_list nothing
      ≡ ok ((cl', t'), s'))
    × (is_filled small_table t' ≡ true)
unfolding small_table
parse_logs_total_example =
    parse_logs_total memory memory-WritesAll small_table "/fgnn/logs" " " " " " " done_list nothing
      refl small_table-HasOne

run_total_example :
    (cl' : ConfigList) × (s' : memory.State) × (run memory "/fgnn/app" "/fgnn/logs" false true none
        everything nothing
      ≡ ok (cl', s'))
    × (cores cl'.conf_list ≡ planned "/fgnn/logs" 0 (options_of everything.conf_list))
unfolding everything flags_are_texts text_discrete lookup insert
run_total_example =
    run_total memory memory-WritesAll "/fgnn/app" "/fgnn/logs" false everything nothing refl

is_ok-form_cmd_example :
    is_ok (form_cmd 0 "/fgnn/app" "/fgnn/logs" true gcn_done) ≡ can_form gcn_done.configs
is_ok-form_cmd_example = is_ok-form_cmd 0 "/fgnn/app" "/fgnn/logs" true gcn_done

run_all-succeeded_example :
    (cs' : List RunConfig) × (run_all memory "/fgnn/app" "/fgnn/logs" false true none 0
        done_list.conf_list nothing
      ≡ ok (cs', nothing))
    × (cores cs' ≡ planned "/fgnn/logs" 0 (options_of done_list.conf_list))
    × (all_of succeeded cs' ≡ true)
unfolding gcn_done flags_are_texts text_discrete lookup insert
run_all-succeeded_example =
    run_all-succeeded memory "/fgnn/app" "/fgnn/logs" false 0 done_list.conf_list nothing refl refl

-- The files after the statuses of that list have been written.
unfoldable pub status_kept : memory.State
unfolding memory
status_kept = (("/fgnn/logs/run_status.txt", "Test0=1\n") ∷ [], "mkdir -p /fgnn/logs" ∷ [])

status_is_kept : write_run_status memory "/fgnn/logs" false done_list nothing ≡ ok (tt, status_kept)
unfolding write_run_status output status_lines status_line unlines memory nothing status_kept
    gcn_done text_discrete show path_join
status_is_kept = refl

load-write_run_status_example :
    (load_run_status memory "/fgnn/logs" everything status_kept).conf_list
    ≡ with_statuses everything.conf_list done_list.conf_list
load-write_run_status_example =
    load-write_run_status memory "/fgnn/logs" done_list everything nothing status_kept
      memory-ReadsBack status_is_kept
