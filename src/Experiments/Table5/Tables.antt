-- ===== src/Experiments/Table5/Tables.antt =====
-- exp/table5/logtable_def.py. A number such as 0.2 is `hundredths 20`.
use fgnn_artifacts.Prelude.{[], ◌∷◌, Result, ◌>>=◌}
use fgnn_artifacts.Runner.Value.{
  gcn, graphsage, pinsage, products, papers100m, uk_2006_05, twitter, app, dataset, text,
}
use fgnn_artifacts.Runner.LogTable.{
  LogTable, log_table, update_row_definition, update_col_definition, create,
}

unfoldable pub get_dgl_logtable : Result LogTable
unfolding log_table update_col_definition update_row_definition create
get_dgl_logtable = do
  let t = log_table 8 3 []
  t ← update_col_definition 0 "sample_time" t
  t ← update_col_definition 1 "copy_time" t
  t ← update_col_definition 2 "train_time" t
  t ← update_row_definition 0 0 2 (("app", app gcn) ∷ ("dataset", dataset products) ∷ []) t
  t ← update_row_definition 1 0 2 (("app", app gcn) ∷ ("dataset", dataset twitter) ∷ []) t
  t ← update_row_definition 2 0 2 (("app", app gcn) ∷ ("dataset", dataset papers100m) ∷ []) t
  t ← update_row_definition 3 0 2 (("app", app gcn) ∷ ("dataset", dataset uk_2006_05) ∷ []) t
  t ← update_row_definition 4 0 2 (("app", app graphsage) ∷ ("dataset", dataset products) ∷ []) t
  t ← update_row_definition 5 0 2 (("app", app graphsage) ∷ ("dataset", dataset twitter) ∷ []) t
  t ← update_row_definition 6 0 2 (("app", app graphsage) ∷ ("dataset", dataset papers100m) ∷ []) t
  t ← update_row_definition 7 0 2 (("app", app graphsage) ∷ ("dataset", dataset uk_2006_05) ∷ []) t
  create t

unfoldable pub get_dgl_pinsage_logtable : Result LogTable
unfolding log_table update_col_definition update_row_definition create
get_dgl_pinsage_logtable = do
  let t = log_table 4 3 []
  t ← update_col_definition 0 "sample_time" t
  t ← update_col_definition 1 "copy_time" t
  t ← update_col_definition 2 "train_time" t
  t ← update_row_definition 0 0 2 (("dataset", dataset products) ∷ []) t
  t ← update_row_definition 1 0 2 (("dataset", dataset twitter) ∷ []) t
  t ← update_row_definition 2 0 2 (("dataset", dataset papers100m) ∷ []) t
  t ← update_row_definition 3 0 2 (("dataset", dataset uk_2006_05) ∷ []) t
  create t

unfoldable pub get_pyg_logtable : Result LogTable
unfolding log_table update_col_definition update_row_definition create
get_pyg_logtable = do
  let t = log_table 8 4 []
  t ← update_col_definition 0 "sample_time" t
  t ← update_col_definition 1 "copy_time" t
  t ← update_col_definition 2 "train_time" t
  t ← update_col_definition 3 "epoch_time" t
  t ←
      update_row_definition 0 0 3
        (("app", app gcn)
          ∷ ("dataset", dataset products)
          ∷ ("BOOL_pipelining", text "no_pipelining")
          ∷ [])
        t
  t ←
      update_row_definition 1 0 3
        (("app", app gcn)
          ∷ ("dataset", dataset twitter)
          ∷ ("BOOL_pipelining", text "no_pipelining")
          ∷ [])
        t
  t ←
      update_row_definition 2 0 3
        (("app", app gcn)
          ∷ ("dataset", dataset papers100m)
          ∷ ("BOOL_pipelining", text "no_pipelining")
          ∷ [])
        t
  t ←
      update_row_definition 3 0 3
        (("app", app gcn)
          ∷ ("dataset", dataset uk_2006_05)
          ∷ ("BOOL_pipelining", text "no_pipelining")
          ∷ [])
        t
  t ←
      update_row_definition 4 0 3
        (("app", app graphsage)
          ∷ ("dataset", dataset products)
          ∷ ("BOOL_pipelining", text "no_pipelining")
          ∷ [])
        t
  t ←
      update_row_definition 5 0 3
        (("app", app graphsage)
          ∷ ("dataset", dataset twitter)
          ∷ ("BOOL_pipelining", text "no_pipelining")
          ∷ [])
        t
  t ←
      update_row_definition 6 0 3
        (("app", app graphsage)
          ∷ ("dataset", dataset papers100m)
          ∷ ("BOOL_pipelining", text "no_pipelining")
          ∷ [])
        t
  t ←
      update_row_definition 7 0 3
        (("app", app graphsage)
          ∷ ("dataset", dataset uk_2006_05)
          ∷ ("BOOL_pipelining", text "no_pipelining")
          ∷ [])
        t
  create t

unfoldable pub get_sgnn_logtable : Result LogTable
unfolding log_table update_col_definition update_row_definition create
get_sgnn_logtable = do
  let t = log_table 12 9 []
  t ← update_col_definition 0 "epoch_time:sample_total" t
  t ← update_col_definition 1 "sample_time" t
  t ← update_col_definition 2 "get_cache_miss_index_time" t
  t ← update_col_definition 3 "epoch_time:copy_time" t
  t ← update_col_definition 4 "cache_percentage" t
  t ← update_col_definition 5 "cache_hit_rate" t
  t ← update_col_definition 6 "epoch_time:train_total" t
  t ← update_col_definition 7 "train_time" t
  t ← update_col_definition 8 "convert_time" t
  t ← update_row_definition 0 0 8 (("app", app gcn) ∷ ("dataset", dataset products) ∷ []) t
  t ← update_row_definition 1 0 8 (("app", app gcn) ∷ ("dataset", dataset twitter) ∷ []) t
  t ← update_row_definition 2 0 8 (("app", app gcn) ∷ ("dataset", dataset papers100m) ∷ []) t
  t ← update_row_definition 3 0 8 (("app", app gcn) ∷ ("dataset", dataset uk_2006_05) ∷ []) t
  t ← update_row_definition 4 0 8 (("app", app graphsage) ∷ ("dataset", dataset products) ∷ []) t
  t ← update_row_definition 5 0 8 (("app", app graphsage) ∷ ("dataset", dataset twitter) ∷ []) t
  t ← update_row_definition 6 0 8 (("app", app graphsage) ∷ ("dataset", dataset papers100m) ∷ []) t
  t ← update_row_definition 7 0 8 (("app", app graphsage) ∷ ("dataset", dataset uk_2006_05) ∷ []) t
  t ← update_row_definition 8 0 8 (("app", app pinsage) ∷ ("dataset", dataset products) ∷ []) t
  t ← update_row_definition 9 0 8 (("app", app pinsage) ∷ ("dataset", dataset twitter) ∷ []) t
  t ← update_row_definition 10 0 8 (("app", app pinsage) ∷ ("dataset", dataset papers100m) ∷ []) t
  t ← update_row_definition 11 0 8 (("app", app pinsage) ∷ ("dataset", dataset uk_2006_05) ∷ []) t
  create t

unfoldable pub get_fgnn_logtable : Result LogTable
unfolding log_table update_col_definition update_row_definition create
get_fgnn_logtable = do
  let t = log_table 12 10 []
  t ← update_col_definition 0 "epoch_time:sample_total" t
  t ← update_col_definition 1 "sample_time" t
  t ← update_col_definition 2 "get_cache_miss_index_time" t
  t ← update_col_definition 3 "enqueue_samples_time" t
  t ← update_col_definition 4 "epoch_time:copy_time" t
  t ← update_col_definition 5 "cache_percentage" t
  t ← update_col_definition 6 "cache_hit_rate" t
  t ← update_col_definition 7 "epoch_time:train_total" t
  t ← update_col_definition 8 "train_time" t
  t ← update_col_definition 9 "convert_time" t
  t ← update_row_definition 0 0 9 (("app", app gcn) ∷ ("dataset", dataset products) ∷ []) t
  t ← update_row_definition 1 0 9 (("app", app gcn) ∷ ("dataset", dataset twitter) ∷ []) t
  t ← update_row_definition 2 0 9 (("app", app gcn) ∷ ("dataset", dataset papers100m) ∷ []) t
  t ← update_row_definition 3 0 9 (("app", app gcn) ∷ ("dataset", dataset uk_2006_05) ∷ []) t
  t ← update_row_definition 4 0 9 (("app", app graphsage) ∷ ("dataset", dataset products) ∷ []) t
  t ← update_row_definition 5 0 9 (("app", app graphsage) ∷ ("dataset", dataset twitter) ∷ []) t
  t ← update_row_definition 6 0 9 (("app", app graphsage) ∷ ("dataset", dataset papers100m) ∷ []) t
  t ← update_row_definition 7 0 9 (("app", app graphsage) ∷ ("dataset", dataset uk_2006_05) ∷ []) t
  t ← update_row_definition 8 0 9 (("app", app pinsage) ∷ ("dataset", dataset products) ∷ []) t
  t ← update_row_definition 9 0 9 (("app", app pinsage) ∷ ("dataset", dataset twitter) ∷ []) t
  t ← update_row_definition 10 0 9 (("app", app pinsage) ∷ ("dataset", dataset papers100m) ∷ []) t
  t ← update_row_definition 11 0 9 (("app", app pinsage) ∷ ("dataset", dataset uk_2006_05) ∷ []) t
  create t
