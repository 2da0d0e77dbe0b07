-- ===== src/Experiments/Table1/Tables.antt =====
-- exp/table1/logtable_def.py. A number such as 0.2 is `hundredths 20`.
use fgnn_artifacts.Prelude.{[], ◌∷◌, Result, ◌>>=◌}
use fgnn_artifacts.Runner.Value.{text, int, hundredths}
use fgnn_artifacts.Runner.LogTable.{
  LogTable, log_table, update_row_definition, update_col_definition, create,
}

unfoldable pub get_dgl_logtable : Result LogTable
unfolding log_table update_col_definition update_row_definition create
get_dgl_logtable = do
  let t = log_table 2 4 []
  t ← update_col_definition 0 "sample_time" t
  t ← update_col_definition 1 "copy_time" t
  t ← update_col_definition 2 "train_time" t
  t ← update_col_definition 3 "epoch_time" t
  t ← update_row_definition 0 0 3 (("BOOL_use_gpu_sampling", text "no_use_gpu_sampling") ∷ []) t
  t ← update_row_definition 1 0 3 (("BOOL_use_gpu_sampling", text "use_gpu_sampling") ∷ []) t
  create t

unfoldable pub get_sgnn_logtable : Result LogTable
unfolding log_table update_col_definition update_row_definition create
get_sgnn_logtable = do
  let t = log_table 4 6 []
  t ← update_col_definition 0 "epoch_time:sample_time" t
  t ← update_col_definition 1 "epoch_time:copy_time" t
  t ← update_col_definition 2 "epoch_time:train_total" t
  t ← update_col_definition 3 "epoch_time:total" t
  t ← update_col_definition 4 "cache_percentage" t
  t ← update_col_definition 5 "cache_hit_rate" t
  t ← update_row_definition 0 0 5 (("arch", text "arch0") ∷ ("cache_percentage", int 0) ∷ []) t
  t ←
      update_row_definition 1 0 5
        (("arch", text "arch0") ∷ ("cache_percentage", hundredths 20) ∷ []) t
  t ← update_row_definition 2 0 5 (("arch", text "arch2") ∷ ("cache_percentage", int 0) ∷ []) t
  t ←
      update_row_definition 3 0 5 (("arch", text "arch2") ∷ ("cache_percentage", hundredths 7) ∷ [])
        t
  create t
