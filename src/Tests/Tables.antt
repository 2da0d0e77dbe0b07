-- ===== src/Tests/Tables.antt =====
-- The definitions of a table with two rows and two columns.
use fgnn_artifacts.Prelude.{◌≡◌, ◌≢◌, [], ◌∷◌, inr, ok, raise, assertion_error, arith}
use fgnn_artifacts.Prelude.Dict.{Dict}
use fgnn_artifacts.Runner.Value.{gcn, Value, app}
use fgnn_artifacts.Runner.LogTable.{LogTable, log_table, update_row_definition}
use fgnn_artifacts.Runner.LogTable.Definitions.{
  HasCells, log_table-HasCells, Redefines, update_row_definition_lem, update_row_definition-out,
}
use fgnn_artifacts.Runner.RunConfig.{std_out_path}
use fgnn_artifacts.Runner.RunConfig.Logs.{std_out_path_distinct}

unfoldable pub two_by_two : LogTable
unfolding log_table
two_by_two = log_table 2 2 []

abbrev gcn_row : Dict Value
gcn_row = ("app", app gcn) ∷ []

two_by_two-HasCells : HasCells two_by_two
unfolding two_by_two
two_by_two-HasCells = log_table-HasCells 2 2 []

update_row_definition_lem_example :
    (t' : LogTable) × (update_row_definition 0 0 1 gcn_row two_by_two ≡ ok t')
    × Redefines 0 gcn_row 0 2 two_by_two t'
unfolding two_by_two log_table
update_row_definition_lem_example =
    update_row_definition_lem 0 gcn_row 0 1 two_by_two two_by_two-HasCells (omega arith)
      (omega arith)

update_row_definition-out_example :
    update_row_definition 0 1 2 gcn_row two_by_two ≡ raise assertion_error
unfolding two_by_two log_table
update_row_definition-out_example =
    update_row_definition-out 0 gcn_row 1 2 two_by_two (inr (omega arith, omega arith))

std_out_path_distinct_example : std_out_path "output/logs_dgl" 3 ≢ std_out_path "output/logs_dgl" 4
std_out_path_distinct_example = std_out_path_distinct "output/logs_dgl" 3 4 (omega arith)
