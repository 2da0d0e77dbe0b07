-- ===== src/Runner/Pipeline.antt =====
-- What the experiment scripts do with the runner: they create a table, run a list of
-- configurations, and parse the logs into the table.
pub mod Planned
pub mod Complete
use fgnn_artifacts.Prelude.{
  ℕ, zero, suc, String, Bool, true, false, ◌&&◌, Option, none, some, List, [], ◌∷◌, length, all_of,
  get_elem?, each_below, ◌==◌, Result, ok, raise,
}
use fgnn_artifacts.Prelude.Dict.{Dict}
use fgnn_artifacts.Runner.Os.{Os, Io, bind}
use fgnn_artifacts.Runner.Value.{Value}
use fgnn_artifacts.Runner.LogTable.{LogTable, cell?}
use fgnn_artifacts.Runner.RunConfig.{RunConfig}
use fgnn_artifacts.Runner.RunConfig.Commands.{can_form}
use fgnn_artifacts.Runner.ConfigList
use fgnn_artifacts.Runner.ConfigList.{ConfigList}
use fgnn_artifacts.Runner.Execution
use fgnn_artifacts.Runner.Execution.Options.{options_of}
use fgnn_artifacts.Runner.Report.{parse_logs, has_places}

-- `configs.run(appdir, logdir, mock)` and then `configs.parse_logs(table, logdir)`, for a table
-- and a list that were built without an exception.
unfoldable pub experiment :
    (os : Os) → String → String → Bool → LogTable → ConfigList → Io os (ConfigList × LogTable)
unfolding Execution.run parse_logs
experiment os appdir logdir mock table configs =
    bind os (Execution.run os appdir logdir mock true none configs)
      λ configs'. parse_logs os table logdir " " " " " " configs'

abbrev pub has_column : LogTable → ℕ → Bool
has_column t j = elim (get_elem? t.col_definitions j) [ none ↦ false | some _ ↦ true ]

-- The cell and its column are there, and the places for its options and references, and its row definition matches one configuration.
unfoldable pub one_match : LogTable → List RunConfig → ℕ → ℕ → Bool
unfolding ConfigList.match
one_match t confs i j = elim (cell? t.row_definitions i j) [
  | none ↦ false
  | some d ↦ (length (ConfigList.match d confs) == 1) && (has_places i j t && has_column t j)
]

-- A check of a table and a list that can be done before anything is run.
unfoldable pub is_ready : LogTable → ConfigList → Bool
unfolding each_below one_match
is_ready t cl =
    t.is_finalized
    && all_of can_form (options_of cl.conf_list)
    && each_below t.num_row (λ i. each_below t.num_col (λ j. one_match t cl.conf_list i j))
