-- ===== src/AutoRunner/Samgraph/Overall.antt =====
-- overall_test of example/auto_runner/run_samgraph.py. A number such as 0.2 is `hundredths 20`.
use fgnn_artifacts.Prelude.{[], ◌∷◌, Result, ok, ◌>>=◌}
use fgnn_artifacts.Runner.Value.{gcn, graphsage, pinsage, app, wide, text, int, hundredths, among}
use fgnn_artifacts.AutoRunner.Datasets.{products, papers100m, uk_2006_05, twitter}
use fgnn_artifacts.Runner.LogTable.{
  LogTable, log_table, update_row_definition, update_col_definition, create,
}
use fgnn_artifacts.Runner.ConfigList.{
  ConfigList, select, override, combo, multi_combo_multi_override, multi_combo_multi_override_list,
}
use fgnn_artifacts.AutoRunner.Common.{config_list}
use fgnn_artifacts.AutoRunner.Testing.{Test}

overall_table : Result LogTable
unfolding log_table update_col_definition update_row_definition create
overall_table = do
  let t = log_table 12 2 []
  t ← update_col_definition 0 "pipeline_train_epoch_time" t
  t ← update_col_definition 1 "cache_percentage" t
  t ← update_row_definition 0 0 1 (("app", app gcn) ∷ ("dataset", wide products) ∷ []) t
  t ← update_row_definition 1 0 1 (("app", app gcn) ∷ ("dataset", wide twitter) ∷ []) t
  t ← update_row_definition 2 0 1 (("app", app gcn) ∷ ("dataset", wide papers100m) ∷ []) t
  t ← update_row_definition 3 0 1 (("app", app gcn) ∷ ("dataset", wide uk_2006_05) ∷ []) t
  t ← update_row_definition 4 0 1 (("app", app graphsage) ∷ ("dataset", wide products) ∷ []) t
  t ←
      update_row_definition 5 0 1
        (("app", app graphsage) ∷ ("dataset", wide twitter) ∷ ("num_sample_worker", int 2) ∷ []) t
  t ←
      update_row_definition 6 0 1
        (("app", app graphsage) ∷ ("dataset", wide papers100m) ∷ ("num_sample_worker", int 2) ∷ [])
        t
  t ←
      update_row_definition 7 0 1
        (("app", app graphsage) ∷ ("dataset", wide uk_2006_05) ∷ ("num_sample_worker", int 1) ∷ [])
        t
  t ← update_row_definition 8 0 1 (("app", app pinsage) ∷ ("dataset", wide products) ∷ []) t
  t ← update_row_definition 9 0 1 (("app", app pinsage) ∷ ("dataset", wide twitter) ∷ []) t
  t ← update_row_definition 10 0 1 (("app", app pinsage) ∷ ("dataset", wide papers100m) ∷ []) t
  t ← update_row_definition 11 0 1 (("app", app pinsage) ∷ ("dataset", wide uk_2006_05) ∷ []) t
  create t

overall_configs : Result ConfigList
unfolding config_list combo multi_combo_multi_override multi_combo_multi_override_list override
    select
overall_configs = do
  let c = config_list "Samgraph overall test"
  c ← select "app" (among (app gcn ∷ app graphsage ∷ app pinsage ∷ [])) c
  c ← combo "app" (among (app gcn ∷ app graphsage ∷ [])) "sample_type" (text "khop2" ∷ []) c
  c ← combo "app" (among (app pinsage ∷ [])) "sample_type" (text "random_walk" ∷ []) c
  let c = override "num_epoch" (int 10 ∷ []) c
  let c = override "omp-thread-num" (int 40 ∷ []) c
  c ← combo "app" (among (app gcn ∷ [])) "fanout" (text "5 10 15" ∷ []) c
  c ← combo "app" (among (app graphsage ∷ [])) "fanout" (text "25 10" ∷ []) c
  let c = override "BOOL_pipeline" (text "pipeline" ∷ []) c
  c ←
      multi_combo_multi_override "and"
        (("app", (among (app gcn ∷ []))) ∷ ("dataset", (among (wide products ∷ []))) ∷ [])
        (("cache_percentage", hundredths 100)
          ∷ ("num_sample_worker", int 3)
          ∷ ("num_train_worker", int 5)
          ∷ [])
        c
  c ←
      multi_combo_multi_override "and"
        (("app", (among (app gcn ∷ []))) ∷ ("dataset", (among (wide papers100m ∷ []))) ∷ [])
        (("cache_percentage", hundredths 20)
          ∷ ("num_sample_worker", int 2)
          ∷ ("num_train_worker", int 6)
          ∷ [])
        c
  c ←
      multi_combo_multi_override "and"
        (("app", (among (app gcn ∷ []))) ∷ ("dataset", (among (wide twitter ∷ []))) ∷ [])
        (("cache_percentage", hundredths 18)
          ∷ ("num_sample_worker", int 2)
          ∷ ("num_train_worker", int 6)
          ∷ [])
        c
  c ←
      multi_combo_multi_override "and"
        (("app", (among (app gcn ∷ []))) ∷ ("dataset", (among (wide uk_2006_05 ∷ []))) ∷ [])
        (("cache_percentage", hundredths 11)
          ∷ ("num_sample_worker", int 2)
          ∷ ("num_train_worker", int 6)
          ∷ [])
        c
  c ←
      multi_combo_multi_override "and"
        (("app", (among (app graphsage ∷ []))) ∷ ("dataset", (among (wide products ∷ []))) ∷ [])
        (("cache_percentage", hundredths 100)
          ∷ ("num_sample_worker", int 4)
          ∷ ("num_train_worker", int 4)
          ∷ [])
        c
  c ←
      multi_combo_multi_override_list "and"
        (("app", (among (app graphsage ∷ []))) ∷ ("dataset", (among (wide papers100m ∷ []))) ∷ [])
        ((("cache_percentage", hundredths 24)
            ∷ ("num_sample_worker", int 2)
            ∷ ("num_train_worker", int 6)
            ∷ [])
          ∷ [])
        c
  c ←
      multi_combo_multi_override_list "and"
        (("app", (among (app graphsage ∷ []))) ∷ ("dataset", (among (wide twitter ∷ []))) ∷ [])
        ((("cache_percentage", hundredths 31)
            ∷ ("num_sample_worker", int 2)
            ∷ ("num_train_worker", int 6)
            ∷ [])
          ∷ [])
        c
  c ←
      multi_combo_multi_override_list "and"
        (("app", (among (app graphsage ∷ []))) ∷ ("dataset", (among (wide uk_2006_05 ∷ []))) ∷ [])
        ((("cache_percentage", hundredths 16)
            ∷ ("num_sample_worker", int 1)
            ∷ ("num_train_worker", int 7)
            ∷ [])
          ∷ [])
        c
  c ←
      multi_combo_multi_override "and"
        (("app", (among (app pinsage ∷ []))) ∷ ("dataset", (among (wide products ∷ []))) ∷ [])
        (("cache_percentage", hundredths 100)
          ∷ ("num_sample_worker", int 1)
          ∷ ("num_train_worker", int 7)
          ∷ [])
        c
  c ←
      multi_combo_multi_override "and"
        (("app", (among (app pinsage ∷ []))) ∷ ("dataset", (among (wide papers100m ∷ []))) ∷ [])
        (("cache_percentage", hundredths 21)
          ∷ ("num_sample_worker", int 1)
          ∷ ("num_train_worker", int 7)
          ∷ [])
        c
  c ←
      multi_combo_multi_override "and"
        (("app", (among (app pinsage ∷ []))) ∷ ("dataset", (among (wide twitter ∷ []))) ∷ [])
        (("cache_percentage", hundredths 23)
          ∷ ("num_sample_worker", int 1)
          ∷ ("num_train_worker", int 7)
          ∷ [])
        c
  c ←
      multi_combo_multi_override "and"
        (("app", (among (app pinsage ∷ []))) ∷ ("dataset", (among (wide uk_2006_05 ∷ []))) ∷ [])
        (("cache_percentage", hundredths 9)
          ∷ ("num_sample_worker", int 1)
          ∷ ("num_train_worker", int 7)
          ∷ [])
        c
  ok c

unfoldable pub overall_test : Test
unfolding overall_table overall_configs
overall_test = record { table = overall_table; configs = overall_configs }
