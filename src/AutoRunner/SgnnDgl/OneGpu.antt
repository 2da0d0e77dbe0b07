-- ===== src/AutoRunner/SgnnDgl/OneGpu.antt =====
-- one_gpu_test of example/auto_runner/run_sgnn_dgl.py. A number such as 0.2 is `hundredths 20`.
use fgnn_artifacts.Prelude.{[], ◌∷◌, Result, ok, ◌>>=◌}
use fgnn_artifacts.Runner.Value.{pinsage, app, wide, text, int, among}
use fgnn_artifacts.AutoRunner.Datasets.{products, papers100m, twitter}
use fgnn_artifacts.Runner.LogTable.{
  LogTable, log_table, update_row_definition, update_col_definition, create,
}
use fgnn_artifacts.Runner.ConfigList.{ConfigList, select, override}
use fgnn_artifacts.AutoRunner.Common.{config_list}
use fgnn_artifacts.AutoRunner.Testing.{Test}

one_gpu_table : Result LogTable
unfolding log_table update_col_definition update_row_definition create
one_gpu_table = do
  let t = log_table 3 1 []
  t ← update_col_definition 0 "epoch_time:total" t
  t ← update_row_definition 0 0 0 (("num_worker", int 1) ∷ ("dataset", wide products) ∷ []) t
  t ← update_row_definition 1 0 0 (("num_worker", int 1) ∷ ("dataset", wide twitter) ∷ []) t
  t ← update_row_definition 2 0 0 (("num_worker", int 1) ∷ ("dataset", wide papers100m) ∷ []) t
  create t

one_gpu_configs : Result ConfigList
unfolding config_list override select
one_gpu_configs = do
  let c = config_list "SGNN DGL ONE GPU test"
  c ← select "app" (among (app pinsage ∷ [])) c
  c ← select "dataset" (among (wide papers100m ∷ wide twitter ∷ wide products ∷ [])) c
  let c = override "num_epoch" (int 10 ∷ []) c
  let c = override "num_worker" (int 1 ∷ []) c
  let c = override "BOOL_pipeline" (text "pipeline" ∷ []) c
  ok c

unfoldable pub one_gpu_test : Test
unfolding one_gpu_table one_gpu_configs
one_gpu_test = record { table = one_gpu_table; configs = one_gpu_configs }
