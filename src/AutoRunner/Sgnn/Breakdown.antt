-- ===== src/AutoRunner/Sgnn/Breakdown.antt =====
-- breakdown_test of example/auto_runner/run_sgnn.py. A number such as 0.2 is `hundredths 20`.
use fgnn_artifacts.Prelude.{[], ◌∷◌, Result, ok, ◌>>=◌}
use fgnn_artifacts.Runner.Value.{gcn, graphsage, pinsage, app, wide, text, int, hundredths, among}
use fgnn_artifacts.AutoRunner.Datasets.{products, papers100m, uk_2006_05, twitter}
use fgnn_artifacts.Runner.LogTable.{
  LogTable, log_table, update_row_definition, update_col_definition, create,
}
use fgnn_artifacts.Runner.ConfigList.{
  ConfigList, select, override, combo, multi_combo_multi_override,
}
use fgnn_artifacts.AutoRunner.Common.{config_list}
use fgnn_artifacts.AutoRunner.Testing.{Test}

breakdown_table : Result LogTable
unfolding log_table update_col_definition update_row_definition create
breakdown_table = do
  let t = log_table 12 8 []
  t ← update_col_definition 0 "epoch_time:sample_total" t
  t ← update_col_definition 1 "sample_time" t
  t ← update_col_definition 2 "get_cache_miss_index_time" t
  t ← update_col_definition 3 "epoch_time:copy_time" t
  t ← update_col_definition 4 "cache_percentage" t
  t ← update_col_definition 5 "cache_hit_rate" t
  t ← update_col_definition 6 "epoch_time:train_total" t
  t ← update_col_definition 7 "epoch_time:total" t
  t ← update_row_definition 0 0 7 (("app", app gcn) ∷ ("dataset", wide products) ∷ []) t
  t ← update_row_definition 1 0 7 (("app", app gcn) ∷ ("dataset", wide twitter) ∷ []) t
  t ← update_row_definition 2 0 7 (("app", app gcn) ∷ ("dataset", wide papers100m) ∷ []) t
  t ← update_row_definition 3 0 7 (("app", app gcn) ∷ ("dataset", wide uk_2006_05) ∷ []) t
  t ← update_row_definition 4 0 7 (("app", app graphsage) ∷ ("dataset", wide products) ∷ []) t
  t ← update_row_definition 5 0 7 (("app", app graphsage) ∷ ("dataset", wide twitter) ∷ []) t
  t ← update_row_definition 6 0 7 (("app", app graphsage) ∷ ("dataset", wide papers100m) ∷ []) t
  t ← update_row_definition 7 0 7 (("app", app graphsage) ∷ ("dataset", wide uk_2006_05) ∷ []) t
  t ← update_row_definition 8 0 7 (("app", app pinsage) ∷ ("dataset", wide products) ∷ []) t
  t ← update_row_definition 9 0 7 (("app", app pinsage) ∷ ("dataset", wide twitter) ∷ []) t
  t ← update_row_definition 10 0 7 (("app", app pinsage) ∷ ("dataset", wide papers100m) ∷ []) t
  t ← update_row_definition 11 0 7 (("app", app pinsage) ∷ ("dataset", wide uk_2006_05) ∷ []) t
  create t

breakdown_configs : Result ConfigList
unfolding config_list combo multi_combo_multi_override override select
breakdown_configs = do
  let c = config_list "SGNN breakdown test"
  c ← select "app" (among (app gcn ∷ app graphsage ∷ app pinsage ∷ [])) c
  c ← combo "app" (among (app gcn ∷ app graphsage ∷ [])) "sample_type" (text "khop2" ∷ []) c
  c ← combo "app" (among (app pinsage ∷ [])) "sample_type" (text "random_walk" ∷ []) c
  let c = override "num_epoch" (int 10 ∷ []) c
  let c = override "cache_policy" (text "degree" ∷ []) c
  let c = override "num_worker" (int 1 ∷ []) c
  let c = override "BOOL_pipeline" (text "no_pipeline" ∷ []) c
  c ←
      multi_combo_multi_override "and"
        (("app", (among (app gcn ∷ []))) ∷ ("dataset", (among (wide products ∷ []))) ∷ [])
        (("cache_percentage", hundredths 100) ∷ []) c
  c ←
      multi_combo_multi_override "and"
        (("app", (among (app gcn ∷ []))) ∷ ("dataset", (among (wide papers100m ∷ []))) ∷ [])
        (("cache_percentage", hundredths 4) ∷ []) c
  c ←
      multi_combo_multi_override "and"
        (("app", (among (app gcn ∷ []))) ∷ ("dataset", (among (wide twitter ∷ []))) ∷ [])
        (("cache_percentage", hundredths 1) ∷ []) c
  c ←
      multi_combo_multi_override "and"
        (("app", (among (app gcn ∷ []))) ∷ ("dataset", (among (wide uk_2006_05 ∷ []))) ∷ [])
        (("cache_percentage", hundredths 0) ∷ []) c
  c ←
      multi_combo_multi_override "and"
        (("app", (among (app graphsage ∷ []))) ∷ ("dataset", (among (wide products ∷ []))) ∷ [])
        (("cache_percentage", hundredths 100) ∷ []) c
  c ←
      multi_combo_multi_override "and"
        (("app", (among (app graphsage ∷ []))) ∷ ("dataset", (among (wide papers100m ∷ []))) ∷ [])
        (("cache_percentage", hundredths 11) ∷ []) c
  c ←
      multi_combo_multi_override "and"
        (("app", (among (app graphsage ∷ []))) ∷ ("dataset", (among (wide twitter ∷ []))) ∷ [])
        (("cache_percentage", hundredths 15) ∷ []) c
  c ←
      multi_combo_multi_override "and"
        (("app", (among (app graphsage ∷ []))) ∷ ("dataset", (among (wide uk_2006_05 ∷ []))) ∷ [])
        (("cache_percentage", hundredths 0) ∷ []) c
  c ←
      multi_combo_multi_override "and"
        (("app", (among (app pinsage ∷ []))) ∷ ("dataset", (among (wide products ∷ []))) ∷ [])
        (("cache_percentage", hundredths 100) ∷ []) c
  c ←
      multi_combo_multi_override "and"
        (("app", (among (app pinsage ∷ []))) ∷ ("dataset", (among (wide papers100m ∷ []))) ∷ [])
        (("cache_percentage", hundredths 6) ∷ []) c
  c ←
      multi_combo_multi_override "and"
        (("app", (among (app pinsage ∷ []))) ∷ ("dataset", (among (wide twitter ∷ []))) ∷ [])
        (("cache_percentage", hundredths 4) ∷ []) c
  c ←
      multi_combo_multi_override "and"
        (("app", (among (app pinsage ∷ []))) ∷ ("dataset", (among (wide uk_2006_05 ∷ []))) ∷ [])
        (("cache_percentage", hundredths 0) ∷ []) c
  ok c

unfoldable pub breakdown_test : Test
unfolding breakdown_table breakdown_configs
breakdown_test = record { table = breakdown_table; configs = breakdown_configs }
