-- ===== src/Experiments/Table4/Tables.antt =====
-- exp/table4/logtable_def.py. A number such as 0.2 is `hundredths 20`.
use fgnn_artifacts.Prelude.{[], ◌∷◌, Result, ◌>>=◌}
use fgnn_artifacts.Runner.Value.{
  gcn, graphsage, pinsage, products, papers100m, uk_2006_05, twitter, app, dataset,
}
use fgnn_artifacts.Runner.LogTable.{
  LogTable, log_table, update_row_definition, update_col_definition, create,
}

unfoldable pub get_dgl_logtable : Result LogTable
unfolding log_table update_col_definition update_row_definition create
get_dgl_logtable = do
  let t = log_table 8 1 []
  t ← update_col_definition 0 "epoch_time" t
  t ← update_row_definition 0 0 0 (("app", app gcn) ∷ ("dataset", dataset products) ∷ []) t
  t ← update_row_definition 1 0 0 (("app", app gcn) ∷ ("dataset", dataset twitter) ∷ []) t
  t ← update_row_definition 2 0 0 (("app", app gcn) ∷ ("dataset", dataset papers100m) ∷ []) t
  t ← update_row_definition 3 0 0 (("app", app gcn) ∷ ("dataset", dataset uk_2006_05) ∷ []) t
  t ← update_row_definition 4 0 0 (("app", app graphsage) ∷ ("dataset", dataset products) ∷ []) t
  t ← update_row_definition 5 0 0 (("app", app graphsage) ∷ ("dataset", dataset twitter) ∷ []) t
  t ← update_row_definition 6 0 0 (("app", app graphsage) ∷ ("dataset", dataset papers100m) ∷ []) t
  t ← update_row_definition 7 0 0 (("app", app graphsage) ∷ ("dataset", dataset uk_2006_05) ∷ []) t
  create t

unfoldable pub get_dgl_pinsage_logtable : Result LogTable
unfolding log_table update_col_definition update_row_definition create
get_dgl_pinsage_logtable = do
  let t = log_table 4 1 []
  t ← update_col_definition 0 "epoch_time" t
  t ← update_row_definition 0 0 0 (("dataset", dataset products) ∷ []) t
  t ← update_row_definition 1 0 0 (("dataset", dataset twitter) ∷ []) t
  t ← update_row_definition 2 0 0 (("dataset", dataset papers100m) ∷ []) t
  t ← update_row_definition 3 0 0 (("dataset", dataset uk_2006_05) ∷ []) t
  create t

unfoldable pub get_pyg_logtable : Result LogTable
unfolding log_table update_col_definition update_row_definition create
get_pyg_logtable = do
  let t = log_table 8 1 []
  t ← update_col_definition 0 "epoch_time" t
  t ← update_row_definition 0 0 0 (("app", app gcn) ∷ ("dataset", dataset products) ∷ []) t
  t ← update_row_definition 1 0 0 (("app", app gcn) ∷ ("dataset", dataset twitter) ∷ []) t
  t ← update_row_definition 2 0 0 (("app", app gcn) ∷ ("dataset", dataset papers100m) ∷ []) t
  t ← update_row_definition 3 0 0 (("app", app gcn) ∷ ("dataset", dataset uk_2006_05) ∷ []) t
  t ← update_row_definition 4 0 0 (("app", app graphsage) ∷ ("dataset", dataset products) ∷ []) t
  t ← update_row_definition 5 0 0 (("app", app graphsage) ∷ ("dataset", dataset twitter) ∷ []) t
  t ← update_row_definition 6 0 0 (("app", app graphsage) ∷ ("dataset", dataset papers100m) ∷ []) t
  t ← update_row_definition 7 0 0 (("app", app graphsage) ∷ ("dataset", dataset uk_2006_05) ∷ []) t
  create t

unfoldable pub get_sgnn_logtable : Result LogTable
unfolding log_table update_col_definition update_row_definition create
get_sgnn_logtable = do
  let t = log_table 12 2 []
  t ← update_col_definition 0 "epoch_time:total" t
  t ← update_col_definition 1 "cache_percentage" t
  t ← update_row_definition 0 0 1 (("app", app gcn) ∷ ("dataset", dataset products) ∷ []) t
  t ← update_row_definition 1 0 1 (("app", app gcn) ∷ ("dataset", dataset twitter) ∷ []) t
  t ← update_row_definition 2 0 1 (("app", app gcn) ∷ ("dataset", dataset papers100m) ∷ []) t
  t ← update_row_definition 3 0 1 (("app", app gcn) ∷ ("dataset", dataset uk_2006_05) ∷ []) t
  t ← update_row_definition 4 0 1 (("app", app graphsage) ∷ ("dataset", dataset products) ∷ []) t
  t ← update_row_definition 5 0 1 (("app", app graphsage) ∷ ("dataset", dataset twitter) ∷ []) t
  t ← update_row_definition 6 0 1 (("app", app graphsage) ∷ ("dataset", dataset papers100m) ∷ []) t
  t ← update_row_definition 7 0 1 (("app", app graphsage) ∷ ("dataset", dataset uk_2006_05) ∷ []) t
  t ← update_row_definition 8 0 1 (("app", app pinsage) ∷ ("dataset", dataset products) ∷ []) t
  t ← update_row_definition 9 0 1 (("app", app pinsage) ∷ ("dataset", dataset twitter) ∷ []) t
  t ← update_row_definition 10 0 1 (("app", app pinsage) ∷ ("dataset", dataset papers100m) ∷ []) t
  t ← update_row_definition 11 0 1 (("app", app pinsage) ∷ ("dataset", dataset uk_2006_05) ∷ []) t
  create t

unfoldable pub get_fgnn_logtable : Result LogTable
unfolding log_table update_col_definition update_row_definition create
get_fgnn_logtable = do
  let t = log_table 12 2 []
  t ← update_col_definition 0 "pipeline_train_epoch_time" t
  t ← update_col_definition 1 "cache_percentage" t
  t ← update_row_definition 0 0 1 (("app", app gcn) ∷ ("dataset", dataset products) ∷ []) t
  t ← update_row_definition 1 0 1 (("app", app gcn) ∷ ("dataset", dataset twitter) ∷ []) t
  t ← update_row_definition 2 0 1 (("app", app gcn) ∷ ("dataset", dataset papers100m) ∷ []) t
  t ← update_row_definition 3 0 1 (("app", app gcn) ∷ ("dataset", dataset uk_2006_05) ∷ []) t
  t ← update_row_definition 4 0 1 (("app", app graphsage) ∷ ("dataset", dataset products) ∷ []) t
  t ← update_row_definition 5 0 1 (("app", app graphsage) ∷ ("dataset", dataset twitter) ∷ []) t
  t ← update_row_definition 6 0 1 (("app", app graphsage) ∷ ("dataset", dataset papers100m) ∷ []) t
  t ← update_row_definition 7 0 1 (("app", app graphsage) ∷ ("dataset", dataset uk_2006_05) ∷ []) t
  t ← update_row_definition 8 0 1 (("app", app pinsage) ∷ ("dataset", dataset products) ∷ []) t
  t ← update_row_definition 9 0 1 (("app", app pinsage) ∷ ("dataset", dataset twitter) ∷ []) t
  t ← update_row_definition 10 0 1 (("app", app pinsage) ∷ ("dataset", dataset papers100m) ∷ []) t
  t ← update_row_definition 11 0 1 (("app", app pinsage) ∷ ("dataset", dataset uk_2006_05) ∷ []) t
  create t
