-- ===== src/AutoRunner/Dgl/PinsageOverall.antt =====
-- pinsage_overall_test of example/auto_runner/run_dgl.py. A number such as 0.2 is `hundredths 20`.
use fgnn_artifacts.Prelude.{[], ◌∷◌, Result, ok, ◌>>=◌}
use fgnn_artifacts.Runner.Value.{pinsage, app, wide, text, int, among}
use fgnn_artifacts.AutoRunner.Datasets.{products, papers100m, uk_2006_05, twitter}
use fgnn_artifacts.Runner.LogTable.{
  LogTable, log_table, update_row_definition, update_col_definition, create,
}
use fgnn_artifacts.Runner.ConfigList.{ConfigList, select, override}
use fgnn_artifacts.AutoRunner.Common.{config_list}
use fgnn_artifacts.AutoRunner.Testing.{Test}

pinsage_overall_table : Result LogTable
unfolding log_table update_col_definition update_row_definition create
pinsage_overall_table = do
  let t = log_table 4 1 []
  t ← update_col_definition 0 "epoch_time" t
  t ← update_row_definition 0 0 0 (("app", app pinsage) ∷ ("dataset", wide products) ∷ []) t
  t ← update_row_definition 1 0 0 (("app", app pinsage) ∷ ("dataset", wide twitter) ∷ []) t
  t ← update_row_definition 2 0 0 (("app", app pinsage) ∷ ("dataset", wide papers100m) ∷ []) t
  t ← update_row_definition 3 0 0 (("app", app pinsage) ∷ ("dataset", wide uk_2006_05) ∷ []) t
  create t

pinsage_overall_configs : Result ConfigList
unfolding config_list override select
pinsage_overall_configs = do
  let c = config_list "DGL PinSAGE overall performance test"
  c ← select "app" (among (app pinsage ∷ [])) c
  let c = override "num_epoch" (int 10 ∷ []) c
  let c = override "devices" (text "0 1 2 3 4 5 6 7" ∷ []) c
  let c = override "BOOL_use_gpu_sampling" (text "use_gpu_sampling" ∷ []) c
  let c = override "BOOL_pipelining" (text "pipelining" ∷ []) c
  ok c

unfoldable pub pinsage_overall_test : Test
unfolding pinsage_overall_table pinsage_overall_configs
pinsage_overall_test = record { table = pinsage_overall_table; configs = pinsage_overall_configs }
