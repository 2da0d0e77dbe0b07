-- ===== src/AutoRunner/Dgl/PinsageBreakdown.antt =====
-- pinsage_breakdown_test of example/auto_runner/run_dgl.py. A number such as 0.2 is `hundredths 20`.
use fgnn_artifacts.Prelude.{[], ◌∷◌, Result, ok, ◌>>=◌}
use fgnn_artifacts.Runner.Value.{pinsage, app, wide, text, int, among}
use fgnn_artifacts.AutoRunner.Datasets.{products, papers100m, uk_2006_05, twitter}
use fgnn_artifacts.Runner.LogTable.{
  LogTable, log_table, update_row_definition, update_col_definition, create,
}
use fgnn_artifacts.Runner.ConfigList.{ConfigList, select, override}
use fgnn_artifacts.AutoRunner.Common.{config_list}
use fgnn_artifacts.AutoRunner.Testing.{Test}

pinsage_breakdown_table : Result LogTable
unfolding log_table update_col_definition update_row_definition create
pinsage_breakdown_table = do
  let t = log_table 4 3 []
  t ← update_col_definition 0 "sample_time" t
  t ← update_col_definition 1 "copy_time" t
  t ← update_col_definition 2 "train_time" t
  t ← update_row_definition 0 0 2 (("app", app pinsage) ∷ ("dataset", wide products) ∷ []) t
  t ← update_row_definition 1 0 2 (("app", app pinsage) ∷ ("dataset", wide twitter) ∷ []) t
  t ← update_row_definition 2 0 2 (("app", app pinsage) ∷ ("dataset", wide papers100m) ∷ []) t
  t ← update_row_definition 3 0 2 (("app", app pinsage) ∷ ("dataset", wide uk_2006_05) ∷ []) t
  create t

pinsage_breakdown_configs : Result ConfigList
unfolding config_list override select
pinsage_breakdown_configs = do
  let c = config_list "DGL PinSAGE breakdown test"
  c ← select "app" (among (app pinsage ∷ [])) c
  let c = override "num_epoch" (int 10 ∷ []) c
  let c = override "BOOL_use_gpu_sampling" (text "use_gpu_sampling" ∷ []) c
  let c = override "BOOL_pipelining" (text "no_pipelining" ∷ []) c
  let c = override "devices" (text "0" ∷ []) c
  ok c

unfoldable pub pinsage_breakdown_test : Test
unfolding pinsage_breakdown_table pinsage_breakdown_configs
pinsage_breakdown_test = record {
  table = pinsage_breakdown_table;
  configs = pinsage_breakdown_configs;
}
