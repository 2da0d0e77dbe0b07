-- ===== src/AutoRunner/Sgnn/OverallNoPipeline.antt =====
-- overall_no_pipeline_test of example/auto_runner/run_sgnn.py. A number such as 0.2 is `hundredths 20`.
use fgnn_artifacts.Prelude.{[], ◌∷◌, Result, ok, ◌>>=◌}
use fgnn_artifacts.Runner.Value.{gcn, graphsage, pinsage, app, wide, text, int, hundredths, among}
use fgnn_artifacts.AutoRunner.Datasets.{products, papers100m, uk_2006_05, twitter}
use fgnn_artifacts.Runner.LogTable.{
  LogTable, log_table, update_row_definition, update_col_definition, create,
}
use fgnn_artifacts.Runner.ConfigList.{
  ConfigList, select, override, combo, multi_combo_multi_override,
}
use fgnn_artifacts.AutoRunner.Common.{config_list}
use fgnn_artifacts.AutoRunner.Testing.{Test}

overall_no_pipeline_table : Result LogTable
unfolding log_table update_col_definition update_row_definition create
overall_no_pipeline_table = do
  let t = log_table 12 2 []
  t ← update_col_definition 0 "epoch_time:total" t
  t ← update_col_definition 1 "cache_percentage" t
  t ← update_row_definition 0 0 1 (("app", app gcn) ∷ ("dataset", wide products) ∷ []) t
  t ← update_row_definition 1 0 1 (("app", app gcn) ∷ ("dataset", wide twitter) ∷ []) t
  t ← update_row_definition 2 0 1 (("app", app gcn) ∷ ("dataset", wide papers100m) ∷ []) t
  t ← update_row_definition 3 0 1 (("app", app gcn) ∷ ("dataset", wide uk_2006_05) ∷ []) t
  t ← update_row_definition 4 0 1 (("app", app graphsage) ∷ ("dataset", wide products) ∷ []) t
  t ← update_row_definition 5 0 1 (("app", app graphsage) ∷ ("dataset", wide twitter) ∷ []) t
  t ← update_row_definition 6 0 1 (("app", app graphsage) ∷ ("dataset", wide papers100m) ∷ []) t
  t ← update_row_definition 7 0 1 (("app", app graphsage) ∷ ("dataset", wide uk_2006_05) ∷ []) t
  t ← update_row_definition 8 0 1 (("app", app pinsage) ∷ ("dataset", wide products) ∷ []) t
  t ← update_row_definition 9 0 1 (("app", app pinsage) ∷ ("dataset", wide twitter) ∷ []) t
  t ← update_row_definition 10 0 1 (("app", app pinsage) ∷ ("dataset", wide papers100m) ∷ []) t
  t ← update_row_definition 11 0 1 (("app", app pinsage) ∷ ("dataset", wide uk_2006_05) ∷ []) t
  create t

overall_no_pipeline_configs : Result ConfigList
unfolding config_list combo multi_combo_multi_override override select
overall_no_pipeline_configs = do
  let c = config_list "SGNN Overall Non-Pipeline test"
  c ← select "app" (among (app gcn ∷ app graphsage ∷ app pinsage ∷ [])) c
  c ← combo "app" (among (app gcn ∷ app graphsage ∷ [])) "sample_type" (text "khop2" ∷ []) c
  c ← combo "app" (among (app pinsage ∷ [])) "sample_type" (text "random_walk" ∷ []) c
  let c = override "num_epoch" (int 10 ∷ []) c
  let c = override "omp-thread-num" (int 40 ∷ []) c
  let c = override "cache-policy" (text "degree" ∷ []) c
  c ← combo "app" (among (app gcn ∷ [])) "fanout" (text "5 10 15" ∷ []) c
  c ← combo "app" (among (app graphsage ∷ [])) "fanout" (text "25 10" ∷ []) c
  let c = override "BOOL_pipeline" (text "no_pipeline" ∷ []) c
  let c = override "num_worker" (int 8 ∷ []) c
  c ←
      multi_combo_multi_override "and"
        (("app", (among (app gcn ∷ []))) ∷ ("dataset", (among (wide products ∷ []))) ∷ [])
        (("cache_percentage", hundredths 100) ∷ []) c
  c ←
      multi_combo_multi_override "and"
        (("app", (among (app gcn ∷ []))) ∷ ("dataset", (among (wide papers100m ∷ []))) ∷ [])
        (("cache_percentage", hundredths 4) ∷ []) c
  c ←
      multi_combo_multi_override "and"
        (("app", (among (app gcn ∷ []))) ∷ ("dataset", (among (wide twitter ∷ []))) ∷ [])
        (("cache_percentage", hundredths 1) ∷ []) c
  c ←
      multi_combo_multi_override "and"
        (("app", (among (app gcn ∷ []))) ∷ ("dataset", (among (wide uk_2006_05 ∷ []))) ∷ [])
        (("cache_percentage", hundredths 0) ∷ []) c
  c ←
      multi_combo_multi_override "and"
        (("app", (among (app graphsage ∷ []))) ∷ ("dataset", (among (wide products ∷ []))) ∷ [])
        (("cache_percentage", hundredths 100) ∷ []) c
  c ←
      multi_combo_multi_override "and"
        (("app", (among (app graphsage ∷ []))) ∷ ("dataset", (among (wide papers100m ∷ []))) ∷ [])
        (("cache_percentage", hundredths 11) ∷ []) c
  c ←
      multi_combo_multi_override "and"
        (("app", (among (app graphsage ∷ []))) ∷ ("dataset", (among (wide twitter ∷ []))) ∷ [])
        (("cache_percentage", hundredths 15) ∷ []) c
  c ←
      multi_combo_multi_override "and"
        (("app", (among (app graphsage ∷ []))) ∷ ("dataset", (among (wide uk_2006_05 ∷ []))) ∷ [])
        (("cache_percentage", hundredths 0) ∷ []) c
  c ←
      multi_combo_multi_override "and"
        (("app", (among (app pinsage ∷ []))) ∷ ("dataset", (among (wide products ∷ []))) ∷ [])
        (("cache_percentage", hundredths 100) ∷ []) c
  c ←
      multi_combo_multi_override "and"
        (("app", (among (app pinsage ∷ []))) ∷ ("dataset", (among (wide papers100m ∷ []))) ∷ [])
        (("cache_percentage", hundredths 6) ∷ []) c
  c ←
      multi_combo_multi_override "and"
        (("app", (among (app pinsage ∷ []))) ∷ ("dataset", (among (wide twitter ∷ []))) ∷ [])
        (("cache_percentage", hundredths 4) ∷ []) c
  c ←
      multi_combo_multi_override "and"
        (("app", (among (app pinsage ∷ []))) ∷ ("dataset", (among (wide uk_2006_05 ∷ []))) ∷ [])
        (("cache_percentage", hundredths 0) ∷ []) c
  ok c

unfoldable pub overall_no_pipeline_test : Test
unfolding overall_no_pipeline_table overall_no_pipeline_configs
overall_no_pipeline_test = record {
  table = overall_no_pipeline_table;
  configs = overall_no_pipeline_configs;
}
