-- ===== src/AutoRunner/Dgl/Breakdown.antt =====
-- breakdown_test of example/auto_runner/run_dgl.py. A number such as 0.2 is `hundredths 20`.
use fgnn_artifacts.Prelude.{[], ◌∷◌, Result, ok, ◌>>=◌}
use fgnn_artifacts.Runner.Value.{gcn, graphsage, pinsage, app, wide, text, int, among}
use fgnn_artifacts.AutoRunner.Datasets.{products, papers100m, uk_2006_05, twitter}
use fgnn_artifacts.Runner.LogTable.{
  LogTable, log_table, update_row_definition, update_col_definition, create,
}
use fgnn_artifacts.Runner.ConfigList.{ConfigList, select, override, combo}
use fgnn_artifacts.AutoRunner.Common.{config_list}
use fgnn_artifacts.AutoRunner.Testing.{Test}

breakdown_table : Result LogTable
unfolding log_table update_col_definition update_row_definition create
breakdown_table = do
  let t = log_table 12 3 []
  t ← update_col_definition 0 "sample_time" t
  t ← update_col_definition 1 "copy_time" t
  t ← update_col_definition 2 "train_time" t
  t ← update_row_definition 0 0 2 (("app", app gcn) ∷ ("dataset", wide products) ∷ []) t
  t ← update_row_definition 1 0 2 (("app", app gcn) ∷ ("dataset", wide papers100m) ∷ []) t
  t ← update_row_definition 2 0 2 (("app", app gcn) ∷ ("dataset", wide twitter) ∷ []) t
  t ← update_row_definition 3 0 2 (("app", app gcn) ∷ ("dataset", wide uk_2006_05) ∷ []) t
  t ← update_row_definition 4 0 2 (("app", app graphsage) ∷ ("dataset", wide products) ∷ []) t
  t ← update_row_definition 5 0 2 (("app", app graphsage) ∷ ("dataset", wide papers100m) ∷ []) t
  t ← update_row_definition 6 0 2 (("app", app graphsage) ∷ ("dataset", wide twitter) ∷ []) t
  t ← update_row_definition 7 0 2 (("app", app graphsage) ∷ ("dataset", wide uk_2006_05) ∷ []) t
  t ← update_row_definition 8 0 2 (("app", app pinsage) ∷ ("dataset", wide products) ∷ []) t
  t ← update_row_definition 9 0 2 (("app", app pinsage) ∷ ("dataset", wide papers100m) ∷ []) t
  t ← update_row_definition 10 0 2 (("app", app pinsage) ∷ ("dataset", wide twitter) ∷ []) t
  t ← update_row_definition 11 0 2 (("app", app pinsage) ∷ ("dataset", wide uk_2006_05) ∷ []) t
  create t

breakdown_configs : Result ConfigList
unfolding config_list combo override select
breakdown_configs = do
  let c = config_list "DGL breakdown test"
  c ← select "app" (among (app gcn ∷ app graphsage ∷ app pinsage ∷ [])) c
  let c = override "num_epoch" (int 10 ∷ []) c
  c ← combo "app" (among (app pinsage ∷ [])) "num_sampling_worker" (int 40 ∷ []) c
  c ← combo "app" (among (app gcn ∷ [])) "fanout" (text "5 10 15" ∷ []) c
  c ← combo "app" (among (app graphsage ∷ [])) "fanout" (text "25 10" ∷ []) c
  c ←
      combo "app" (among (app gcn ∷ app graphsage ∷ [])) "BOOL_use_gpu_sampling"
        (text "use_gpu_sampling" ∷ []) c
  let c = override "BOOL_pipelining" (text "no_pipelining" ∷ []) c
  let c = override "devices" (text "0" ∷ []) c
  c ←
      combo "dataset" (among (wide uk_2006_05 ∷ [])) "BOOL_validate_configs"
        (text "validate_configs" ∷ []) c
  c ←
      combo "app" (among (app pinsage ∷ [])) "BOOL_validate_configs" (text "validate_configs" ∷ [])
        c
  ok c

unfoldable pub breakdown_test : Test
unfolding breakdown_table breakdown_configs
breakdown_test = record { table = breakdown_table; configs = breakdown_configs }
