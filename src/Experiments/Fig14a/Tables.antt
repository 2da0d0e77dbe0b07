-- ===== src/Experiments/Fig14a/Tables.antt =====
-- exp/fig14a/logtable_def.py. A number such as 0.2 is `hundredths 20`.
use fgnn_artifacts.Prelude.{[], ◌∷◌, Result, ◌>>=◌}
use fgnn_artifacts.Runner.Value.{text, int}
use fgnn_artifacts.Runner.LogTable.{
  LogTable, log_table, update_row_definition, update_col_definition, create,
}

unfoldable pub get_dgl_logtable : Result LogTable
unfolding log_table update_col_definition update_row_definition create
get_dgl_logtable = do
  let t = log_table 8 1 []
  t ← update_col_definition 0 "epoch_time" t
  t ← update_row_definition 0 0 0 (("devices", text "0") ∷ []) t
  t ← update_row_definition 1 0 0 (("devices", text "0 1") ∷ []) t
  t ← update_row_definition 2 0 0 (("devices", text "0 1 2") ∷ []) t
  t ← update_row_definition 3 0 0 (("devices", text "0 1 2 3") ∷ []) t
  t ← update_row_definition 4 0 0 (("devices", text "0 1 2 3 4") ∷ []) t
  t ← update_row_definition 5 0 0 (("devices", text "0 1 2 3 4 5") ∷ []) t
  t ← update_row_definition 6 0 0 (("devices", text "0 1 2 3 4 5 6") ∷ []) t
  t ← update_row_definition 7 0 0 (("devices", text "0 1 2 3 4 5 6 7") ∷ []) t
  create t

unfoldable pub get_fgnn_logtable : Result LogTable
unfolding log_table update_col_definition update_row_definition create
get_fgnn_logtable = do
  let t = log_table 18 1 []
  t ← update_col_definition 0 "pipeline_train_epoch_time" t
  t ←
      update_row_definition 0 0 0 (("num_sample_worker", int 1) ∷ ("num_train_worker", int 1) ∷ [])
        t
  t ←
      update_row_definition 1 0 0 (("num_sample_worker", int 1) ∷ ("num_train_worker", int 2) ∷ [])
        t
  t ←
      update_row_definition 2 0 0 (("num_sample_worker", int 1) ∷ ("num_train_worker", int 3) ∷ [])
        t
  t ←
      update_row_definition 3 0 0 (("num_sample_worker", int 1) ∷ ("num_train_worker", int 4) ∷ [])
        t
  t ←
      update_row_definition 4 0 0 (("num_sample_worker", int 1) ∷ ("num_train_worker", int 5) ∷ [])
        t
  t ←
      update_row_definition 5 0 0 (("num_sample_worker", int 1) ∷ ("num_train_worker", int 6) ∷ [])
        t
  t ←
      update_row_definition 6 0 0 (("num_sample_worker", int 1) ∷ ("num_train_worker", int 7) ∷ [])
        t
  t ←
      update_row_definition 7 0 0 (("num_sample_worker", int 2) ∷ ("num_train_worker", int 1) ∷ [])
        t
  t ←
      update_row_definition 8 0 0 (("num_sample_worker", int 2) ∷ ("num_train_worker", int 2) ∷ [])
        t
  t ←
      update_row_definition 9 0 0 (("num_sample_worker", int 2) ∷ ("num_train_worker", int 3) ∷ [])
        t
  t ←
      update_row_definition 10 0 0 (("num_sample_worker", int 2) ∷ ("num_train_worker", int 4) ∷ [])
        t
  t ←
      update_row_definition 11 0 0 (("num_sample_worker", int 2) ∷ ("num_train_worker", int 5) ∷ [])
        t
  t ←
      update_row_definition 12 0 0 (("num_sample_worker", int 2) ∷ ("num_train_worker", int 6) ∷ [])
        t
  t ←
      update_row_definition 13 0 0 (("num_sample_worker", int 3) ∷ ("num_train_worker", int 1) ∷ [])
        t
  t ←
      update_row_definition 14 0 0 (("num_sample_worker", int 3) ∷ ("num_train_worker", int 2) ∷ [])
        t
  t ←
      update_row_definition 15 0 0 (("num_sample_worker", int 3) ∷ ("num_train_worker", int 3) ∷ [])
        t
  t ←
      update_row_definition 16 0 0 (("num_sample_worker", int 3) ∷ ("num_train_worker", int 4) ∷ [])
        t
  t ←
      update_row_definition 17 0 0 (("num_sample_worker", int 3) ∷ ("num_train_worker", int 5) ∷ [])
        t
  create t

unfoldable pub get_sgnn_logtable : Result LogTable
unfolding log_table update_col_definition update_row_definition create
get_sgnn_logtable = do
  let t = log_table 8 4 []
  t ← update_col_definition 0 "epoch_time:sample_total" t
  t ← update_col_definition 1 "epoch_time:copy_time" t
  t ← update_col_definition 2 "epoch_time:train_total" t
  t ← update_col_definition 3 "epoch_time:total" t
  t ← update_row_definition 0 0 3 (("num_worker", int 1) ∷ []) t
  t ← update_row_definition 1 0 3 (("num_worker", int 2) ∷ []) t
  t ← update_row_definition 2 0 3 (("num_worker", int 3) ∷ []) t
  t ← update_row_definition 3 0 3 (("num_worker", int 4) ∷ []) t
  t ← update_row_definition 4 0 3 (("num_worker", int 5) ∷ []) t
  t ← update_row_definition 5 0 3 (("num_worker", int 6) ∷ []) t
  t ← update_row_definition 6 0 3 (("num_worker", int 7) ∷ []) t
  t ← update_row_definition 7 0 3 (("num_worker", int 8) ∷ []) t
  create t
