-- ===== src/AutoRunner/Dgl/Scalability.antt =====
-- scalability_test of example/auto_runner/run_dgl.py. A number such as 0.2 is `hundredths 20`.
use fgnn_artifacts.Prelude.{[], ◌∷◌, Result, ok, ◌>>=◌}
use fgnn_artifacts.Runner.Value.{gcn, app, wide, text, int, among}
use fgnn_artifacts.AutoRunner.Datasets.{papers100m}
use fgnn_artifacts.Runner.LogTable.{
  LogTable, log_table, update_row_definition, update_col_definition, create,
}
use fgnn_artifacts.Runner.ConfigList.{ConfigList, select, override}
use fgnn_artifacts.AutoRunner.Common.{config_list}
use fgnn_artifacts.AutoRunner.Testing.{Test}

scalability_table : Result LogTable
unfolding log_table update_col_definition update_row_definition create
scalability_table = do
  let t = log_table 8 4 []
  t ← update_col_definition 0 "sample_time" t
  t ← update_col_definition 1 "copy_time" t
  t ← update_col_definition 2 "train_time" t
  t ← update_col_definition 3 "epoch_time" t
  t ←
      update_row_definition 0 0 2
        (("devices", text "0") ∷ ("BOOL_pipelining", text "no_pipelining") ∷ []) t
  t ←
      update_row_definition 1 0 2
        (("devices", text "0 1") ∷ ("BOOL_pipelining", text "no_pipelining") ∷ []) t
  t ←
      update_row_definition 2 0 2
        (("devices", text "0 1 2") ∷ ("BOOL_pipelining", text "no_pipelining") ∷ []) t
  t ←
      update_row_definition 3 0 2
        (("devices", text "0 1 2 3") ∷ ("BOOL_pipelining", text "no_pipelining") ∷ []) t
  t ←
      update_row_definition 4 0 2
        (("devices", text "0 1 2 3 4") ∷ ("BOOL_pipelining", text "no_pipelining") ∷ []) t
  t ←
      update_row_definition 5 0 2
        (("devices", text "0 1 2 3 4 5") ∷ ("BOOL_pipelining", text "no_pipelining") ∷ []) t
  t ←
      update_row_definition 6 0 2
        (("devices", text "0 1 2 3 4 5 6") ∷ ("BOOL_pipelining", text "no_pipelining") ∷ []) t
  t ←
      update_row_definition 7 0 2
        (("devices", text "0 1 2 3 4 5 6 7") ∷ ("BOOL_pipelining", text "no_pipelining") ∷ []) t
  t ←
      update_row_definition 0 3 3
        (("devices", text "0") ∷ ("BOOL_pipelining", text "pipelining") ∷ []) t
  t ←
      update_row_definition 1 3 3
        (("devices", text "0 1") ∷ ("BOOL_pipelining", text "pipelining") ∷ []) t
  t ←
      update_row_definition 2 3 3
        (("devices", text "0 1 2") ∷ ("BOOL_pipelining", text "pipelining") ∷ []) t
  t ←
      update_row_definition 3 3 3
        (("devices", text "0 1 2 3") ∷ ("BOOL_pipelining", text "pipelining") ∷ []) t
  t ←
      update_row_definition 4 3 3
        (("devices", text "0 1 2 3 4") ∷ ("BOOL_pipelining", text "pipelining") ∷ []) t
  t ←
      update_row_definition 5 3 3
        (("devices", text "0 1 2 3 4 5") ∷ ("BOOL_pipelining", text "pipelining") ∷ []) t
  t ←
      update_row_definition 6 3 3
        (("devices", text "0 1 2 3 4 5 6") ∷ ("BOOL_pipelining", text "pipelining") ∷ []) t
  t ←
      update_row_definition 7 3 3
        (("devices", text "0 1 2 3 4 5 6 7") ∷ ("BOOL_pipelining", text "pipelining") ∷ []) t
  create t

scalability_configs : Result ConfigList
unfolding config_list override select
scalability_configs = do
  let c = config_list "DGL scalability test"
  c ← select "app" (among (app gcn ∷ [])) c
  c ← select "dataset" (among (wide papers100m ∷ [])) c
  let c = override "fanout" (text "5 10 15" ∷ []) c
  let c = override "num_epoch" (int 10 ∷ []) c
  let c =
      override "devices"
        (text "0"
          ∷ text "0 1"
          ∷ text "0 1 2"
          ∷ text "0 1 2 3"
          ∷ text "0 1 2 3 4"
          ∷ text "0 1 2 3 4 5"
          ∷ text "0 1 2 3 4 5 6"
          ∷ text "0 1 2 3 4 5 6 7"
          ∷ [])
        c
  let c = override "BOOL_pipelining" (text "pipelining" ∷ text "no_pipelining" ∷ []) c
  let c = override "BOOL_use_gpu_sampling" (text "use_gpu_sampling" ∷ []) c
  ok c

unfoldable pub scalability_test : Test
unfolding scalability_table scalability_configs
scalability_test = record { table = scalability_table; configs = scalability_configs }
