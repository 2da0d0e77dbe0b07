-- ===== src/AutoRunner/SgnnDgl/Breakdown.antt =====
-- breakdown_test of example/auto_runner/run_sgnn_dgl.py. A number such as 0.2 is `hundredths 20`.
use fgnn_artifacts.Prelude.{[], ◌∷◌, Result, ok, ◌>>=◌}
use fgnn_artifacts.Runner.Value.{pinsage, app, wide, text, int, among}
use fgnn_artifacts.AutoRunner.Datasets.{products, papers100m, twitter}
use fgnn_artifacts.Runner.LogTable.{
  LogTable, log_table, update_row_definition, update_col_definition, create,
}
use fgnn_artifacts.Runner.ConfigList.{ConfigList, select, override}
use fgnn_artifacts.AutoRunner.Common.{config_list}
use fgnn_artifacts.AutoRunner.Testing.{Test}

breakdown_table : Result LogTable
unfolding log_table update_col_definition update_row_definition create
breakdown_table = do
  let t = log_table 3 3 []
  t ← update_col_definition 0 "epoch_time:sample_time" t
  t ← update_col_definition 1 "epoch_time:copy_time" t
  t ← update_col_definition 2 "epoch_time:train_total" t
  t ← update_row_definition 0 0 2 (("dataset", wide products) ∷ []) t
  t ← update_row_definition 1 0 2 (("dataset", wide papers100m) ∷ []) t
  t ← update_row_definition 2 0 2 (("dataset", wide twitter) ∷ []) t
  create t

breakdown_configs : Result ConfigList
unfolding config_list override select
breakdown_configs = do
  let c = config_list "SGNN DGL breakdown test"
  c ← select "app" (among (app pinsage ∷ [])) c
  c ← select "dataset" (among (wide products ∷ wide papers100m ∷ wide twitter ∷ [])) c
  let c = override "num_epoch" (int 10 ∷ []) c
  let c = override "BOOL_pipeline" (text "no_pipeline" ∷ []) c
  let c = override "num_worker" (int 1 ∷ []) c
  ok c

unfoldable pub breakdown_test : Test
unfolding breakdown_table breakdown_configs
breakdown_test = record { table = breakdown_table; configs = breakdown_configs }
