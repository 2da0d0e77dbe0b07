-- ===== src/AutoRunner/Dgl/Motivation.antt =====
-- motivation_test of example/auto_runner/run_dgl.py. A number such as 0.2 is `hundredths 20`.
use fgnn_artifacts.Prelude.{[], ◌∷◌, Result, ok, ◌>>=◌}
use fgnn_artifacts.Runner.Value.{gcn, app, wide, text, int, among}
use fgnn_artifacts.AutoRunner.Datasets.{papers100m}
use fgnn_artifacts.Runner.LogTable.{
  LogTable, log_table, update_row_definition, update_col_definition, create,
}
use fgnn_artifacts.Runner.ConfigList.{ConfigList, select, override}
use fgnn_artifacts.AutoRunner.Common.{config_list}
use fgnn_artifacts.AutoRunner.Testing.{Test}

motivation_table : Result LogTable
unfolding log_table update_col_definition update_row_definition create
motivation_table = do
  let t = log_table 2 4 []
  t ← update_col_definition 0 "sample_time" t
  t ← update_col_definition 1 "copy_time" t
  t ← update_col_definition 2 "train_time" t
  t ← update_col_definition 3 "epoch_time" t
  t ← update_row_definition 0 0 3 (("BOOL_use_gpu_sampling", text "use_gpu_sampling") ∷ []) t
  t ← update_row_definition 1 0 3 (("BOOL_use_gpu_sampling", text "no_use_gpu_sampling") ∷ []) t
  create t

motivation_configs : Result ConfigList
unfolding config_list override select
motivation_configs = do
  let c = config_list "DGL motivation test"
  c ← select "app" (among (app gcn ∷ [])) c
  c ← select "dataset" (among (wide papers100m ∷ [])) c
  let c = override "num_epoch" (int 10 ∷ []) c
  let c = override "num_sampling_worker" (int 24 ∷ []) c
  let c =
      override "BOOL_use_gpu_sampling" (text "use_gpu_sampling" ∷ text "no_use_gpu_sampling" ∷ []) c
  let c = override "BOOL_pipelining" (text "no_pipelining" ∷ []) c
  let c = override "devices" (text "0" ∷ []) c
  ok c

unfoldable pub motivation_test : Test
unfolding motivation_table motivation_configs
motivation_test = record { table = motivation_table; configs = motivation_configs }
