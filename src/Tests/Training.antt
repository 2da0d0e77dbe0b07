-- ===== src/Tests/Training.antt =====
-- The options of a training with six training and two sampling processes, and a small table.
use fgnn_artifacts.Prelude.{◌≡◌, refl, true, List, [], ◌∷◌, some, ok, is_ok, arith, text_discrete}
use fgnn_artifacts.Prelude.Dict.{lookup}
use fgnn_artifacts.Runner.Value.{app, gcn, int}
use fgnn_artifacts.Runner.LogTable.{LogTable, log_table, cell?}
use fgnn_artifacts.Runner.LogTable.Abstract.{RowUpdate, update_rows, meaning, update_rows-meaning}
use fgnn_artifacts.Training.Integers.{pos, divided}
use fgnn_artifacts.Training.Config.{
  RunConfig, fgnn, get_default_common_config, process_common_config,
}
use fgnn_artifacts.Training.Checks.{is_valid, process_common_config-is_valid}
use fgnn_artifacts.Training.Constants.{builtin_archs}
use fgnn_artifacts.Training.Devices.{Assigned, process_common_config-devices}

abbrev eight : RunConfig
eight = record (get_default_common_config fgnn) {
  num_train_worker = pos 6;
  num_sample_worker = pos 2;
  sample_type = "khop2";
}

process_common_config-is_valid_example : is_ok (process_common_config 40 eight) ≡ true
unfolding is_valid get_default_common_config lookup builtin_archs text_discrete
process_common_config-is_valid_example = process_common_config-is_valid 40 eight

abbrev processed : (c' : RunConfig) × (process_common_config 40 eight ≡ ok c')
unfolding process_common_config divided get_default_common_config lookup builtin_archs text_discrete
processed = (_, refl)

process_common_config-devices_example : Assigned eight processed.0
unfolding get_default_common_config
process_common_config-devices_example =
    process_common_config-devices 40 eight processed.0 refl processed.1

abbrev two_rows : List RowUpdate
two_rows =
    record { row_id = 0; first = 0; last = 1; kwargs = ("app", app gcn) ∷ [] }
    ∷ record { row_id = 0; first = 1; last = 1; kwargs = ("num_epoch", int 3) ∷ [] }
    ∷ []

update_rows-meaning_example :
    (t : LogTable) × (update_rows two_rows (log_table 1 2 []) ≡ ok t)
    × (cell? t.row_definitions 0 1 ≡ some (meaning [] two_rows 0 1 []))
update_rows-meaning_example =
    update_rows-meaning 1 2 [] two_rows 0 1 refl (omega arith) (omega arith)
