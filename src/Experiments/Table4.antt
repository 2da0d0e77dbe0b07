-- ===== src/Experiments/Table4.antt =====
-- The functions `*_test` of exp/table4/run.py. A number such as 0.2 is `hundredths 20`.
pub mod Tables
use fgnn_artifacts.Prelude.{
  ℕ, Bool, true, List, [], ◌∷◌, ◌≡◌, refl, Result, ok, ◌>>=◌, text_discrete,
}
use fgnn_artifacts.Prelude.Text.{pad_right}
use fgnn_artifacts.Runner.Value.{
  gcn, graphsage, pinsage, products, papers100m, uk_2006_05, twitter, app, dataset, text, int,
  hundredths, among, within,
}
use fgnn_artifacts.Runner.LogTable.{
  LogTable, log_table, update_row_definition, update_col_definition, create,
}
use fgnn_artifacts.Runner.ConfigList.{
  ConfigList, config_list, select, override, combo, multi_combo, multi_combo_multi_override,
  multi_combo_multi_override_list,
}
use fgnn_artifacts.Experiments.Testing.{Test, workers}
use fgnn_artifacts.Experiments.Table4.Tables.{
  get_dgl_logtable, get_dgl_pinsage_logtable, get_pyg_logtable, get_sgnn_logtable,
  get_fgnn_logtable,
}

dgl_overall_configs : ℕ → Result ConfigList
unfolding config_list override select pad_right
dgl_overall_configs num_epoch = do
  let c = config_list (pad_right 25 "DGL Overall Test")
  c ← select "app" (among (app gcn ∷ app graphsage ∷ [])) c
  c ←
      select "dataset"
        (among (dataset products ∷ dataset papers100m ∷ dataset twitter ∷ dataset uk_2006_05 ∷ []))
        c
  let c = override "num_epoch" (int num_epoch ∷ []) c
  let c = override "devices" (text "0 1 2 3 4 5 6 7" ∷ []) c
  let c = override "BOOL_use_gpu_sampling" (text "use_gpu_sampling" ∷ []) c
  let c = override "BOOL_pipelining" (text "pipelining" ∷ []) c
  ok c

dgl_overall_test : Test
unfolding get_dgl_logtable dgl_overall_configs
dgl_overall_test = record {
  table = get_dgl_logtable;
  configs = dgl_overall_configs;
  app_dir = "../../example/dgl/multi_gpu";
  log_dir = "logs_dgl";
}

dgl_pinsage_overall_configs : ℕ → Result ConfigList
unfolding config_list override select pad_right
dgl_pinsage_overall_configs num_epoch = do
  let c = config_list (pad_right 25 "DGL PinSAGE Overall Test")
  c ← select "app" (among (app pinsage ∷ [])) c
  c ←
      select "dataset"
        (among (dataset products ∷ dataset papers100m ∷ dataset twitter ∷ dataset uk_2006_05 ∷ []))
        c
  let c = override "num_epoch" (int num_epoch ∷ []) c
  let c = override "BOOL_use_gpu_sampling" (text "use_gpu_sampling" ∷ []) c
  let c = override "BOOL_pipeline" (text "pipelining" ∷ []) c
  let c = override "devices" (text "0 1 2 3 4 5 6 7" ∷ []) c
  ok c

dgl_pinsage_overall_test : Test
unfolding get_dgl_pinsage_logtable dgl_pinsage_overall_configs
dgl_pinsage_overall_test = record {
  table = get_dgl_pinsage_logtable;
  configs = dgl_pinsage_overall_configs;
  app_dir = "../../example/dgl/multi_gpu";
  log_dir = "logs_dgl_pinsage";
}

pyg_overall_configs : ℕ → Result ConfigList
unfolding config_list override select pad_right
pyg_overall_configs num_epoch = do
  let c = config_list (pad_right 25 "PyG Overall Test")
  c ← select "app" (among (app gcn ∷ app graphsage ∷ [])) c
  let c = override "num_epoch" (int num_epoch ∷ []) c
  let c = override "BOOL_pipelining" (text "pipelining" ∷ []) c
  let c = override "num_sampling_worker" (int 40 ∷ []) c
  let c = override "devices" (text "0 1 2 3 4 5 6 7" ∷ []) c
  ok c

pyg_overall_test : Test
unfolding get_pyg_logtable pyg_overall_configs
pyg_overall_test = record {
  table = get_pyg_logtable;
  configs = pyg_overall_configs;
  app_dir = "../../example/pyg/multi_gpu";
  log_dir = "logs_pyg";
}

sgnn_overall_configs : ℕ → Result ConfigList
unfolding config_list combo multi_combo_multi_override override select pad_right
sgnn_overall_configs num_epoch = do
  let c = config_list (pad_right 25 "SGNN Overall Test")
  c ← select "app" (among (app gcn ∷ app graphsage ∷ app pinsage ∷ [])) c
  c ← combo "app" (among (app gcn ∷ app graphsage ∷ [])) "sample_type" (text "khop2" ∷ []) c
  c ← combo "app" (among (app pinsage ∷ [])) "sample_type" (text "random_walk" ∷ []) c
  let c = override "num_epoch" (int num_epoch ∷ []) c
  let c = override "omp-thread-num" (int 40 ∷ []) c
  let c = override "cache-policy" (text "degree" ∷ []) c
  c ← combo "app" (among (app gcn ∷ [])) "fanout" (text "5 10 15" ∷ []) c
  c ← combo "app" (among (app graphsage ∷ [])) "fanout" (text "25 10" ∷ []) c
  let c = override "BOOL_pipeline" (text "pipeline" ∷ []) c
  let c = override "num_worker" (int 8 ∷ []) c
  c ←
      multi_combo_multi_override "and"
        (("app", (among (app gcn ∷ []))) ∷ ("dataset", (among (dataset products ∷ []))) ∷ [])
        (("cache_percentage", hundredths 100) ∷ []) c
  c ←
      multi_combo_multi_override "and"
        (("app", (among (app gcn ∷ []))) ∷ ("dataset", (among (dataset papers100m ∷ []))) ∷ [])
        (("cache_percentage", hundredths 4) ∷ []) c
  c ←
      multi_combo_multi_override "and"
        (("app", (among (app gcn ∷ []))) ∷ ("dataset", (among (dataset twitter ∷ []))) ∷ [])
        (("cache_percentage", hundredths 1) ∷ []) c
  c ←
      multi_combo_multi_override "and"
        (("app", (among (app gcn ∷ []))) ∷ ("dataset", (among (dataset uk_2006_05 ∷ []))) ∷ [])
        (("cache_percentage", hundredths 0) ∷ []) c
  c ←
      multi_combo_multi_override "and"
        (("app", (among (app graphsage ∷ []))) ∷ ("dataset", (among (dataset products ∷ []))) ∷ [])
        (("cache_percentage", hundredths 100) ∷ []) c
  c ←
      multi_combo_multi_override "and"
        (("app", (among (app graphsage ∷ [])))
          ∷ ("dataset", (among (dataset papers100m ∷ [])))
          ∷ [])
        (("cache_percentage", hundredths 11) ∷ []) c
  c ←
      multi_combo_multi_override "and"
        (("app", (among (app graphsage ∷ []))) ∷ ("dataset", (among (dataset twitter ∷ []))) ∷ [])
        (("cache_percentage", hundredths 15) ∷ []) c
  c ←
      multi_combo_multi_override "and"
        (("app", (among (app graphsage ∷ [])))
          ∷ ("dataset", (among (dataset uk_2006_05 ∷ [])))
          ∷ [])
        (("cache_percentage", hundredths 0) ∷ []) c
  c ←
      multi_combo_multi_override "and"
        (("app", (among (app pinsage ∷ []))) ∷ ("dataset", (among (dataset products ∷ []))) ∷ [])
        (("cache_percentage", hundredths 100) ∷ []) c
  c ←
      multi_combo_multi_override "and"
        (("app", (among (app pinsage ∷ []))) ∷ ("dataset", (among (dataset papers100m ∷ []))) ∷ [])
        (("cache_percentage", hundredths 6) ∷ []) c
  c ←
      multi_combo_multi_override "and"
        (("app", (among (app pinsage ∷ []))) ∷ ("dataset", (among (dataset twitter ∷ []))) ∷ [])
        (("cache_percentage", hundredths 4) ∷ []) c
  c ←
      multi_combo_multi_override "and"
        (("app", (among (app pinsage ∷ []))) ∷ ("dataset", (among (dataset uk_2006_05 ∷ []))) ∷ [])
        (("cache_percentage", hundredths 0) ∷ []) c
  ok c

sgnn_overall_test : Test
unfolding get_sgnn_logtable sgnn_overall_configs
sgnn_overall_test = record {
  table = get_sgnn_logtable;
  configs = sgnn_overall_configs;
  app_dir = "../../example/samgraph/sgnn";
  log_dir = "logs_sgnn";
}

fgnn_overall_configs : ℕ → Result ConfigList
unfolding config_list combo multi_combo_multi_override override select pad_right
fgnn_overall_configs num_epoch = do
  let c = config_list (pad_right 25 "FGNN Overall Test")
  c ← select "app" (among (app gcn ∷ app graphsage ∷ app pinsage ∷ [])) c
  c ← combo "app" (among (app gcn ∷ app graphsage ∷ [])) "sample_type" (text "khop2" ∷ []) c
  c ← combo "app" (among (app pinsage ∷ [])) "sample_type" (text "random_walk" ∷ []) c
  let c = override "num_epoch" (int num_epoch ∷ []) c
  let c = override "omp-thread-num" (int 40 ∷ []) c
  c ← combo "app" (among (app gcn ∷ [])) "fanout" (text "5 10 15" ∷ []) c
  c ← combo "app" (among (app graphsage ∷ [])) "fanout" (text "25 10" ∷ []) c
  let c = override "BOOL_pipeline" (text "pipeline" ∷ []) c
  c ←
      multi_combo_multi_override "and"
        (("app", (among (app gcn ∷ []))) ∷ ("dataset", (among (dataset products ∷ []))) ∷ [])
        (("cache_percentage", hundredths 100)
          ∷ ("num_sample_worker", int 3)
          ∷ ("num_train_worker", int 5)
          ∷ [])
        c
  c ←
      multi_combo_multi_override "and"
        (("app", (among (app gcn ∷ []))) ∷ ("dataset", (among (dataset papers100m ∷ []))) ∷ [])
        (("cache_percentage", hundredths 20)
          ∷ ("num_sample_worker", int 2)
          ∷ ("num_train_worker", int 6)
          ∷ [])
        c
  c ←
      multi_combo_multi_override "and"
        (("app", (among (app gcn ∷ []))) ∷ ("dataset", (among (dataset twitter ∷ []))) ∷ [])
        (("cache_percentage", hundredths 22)
          ∷ ("num_sample_worker", int 2)
          ∷ ("num_train_worker", int 6)
          ∷ [])
        c
  c ←
      multi_combo_multi_override "and"
        (("app", (among (app gcn ∷ []))) ∷ ("dataset", (among (dataset uk_2006_05 ∷ []))) ∷ [])
        (("cache_percentage", hundredths 11)
          ∷ ("num_sample_worker", int 2)
          ∷ ("num_train_worker", int 6)
          ∷ [])
        c
  c ←
      multi_combo_multi_override "and"
        (("app", (among (app graphsage ∷ []))) ∷ ("dataset", (among (dataset products ∷ []))) ∷ [])
        (("cache_percentage", hundredths 100)
          ∷ ("num_sample_worker", int 4)
          ∷ ("num_train_worker", int 4)
          ∷ [])
        c
  c ←
      multi_combo_multi_override "and"
        (("app", (among (app graphsage ∷ [])))
          ∷ ("dataset", (among (dataset papers100m ∷ [])))
          ∷ [])
        (("cache_percentage", hundredths 24)
          ∷ ("num_sample_worker", int 2)
          ∷ ("num_train_worker", int 6)
          ∷ [])
        c
  c ←
      multi_combo_multi_override "and"
        (("app", (among (app graphsage ∷ []))) ∷ ("dataset", (among (dataset twitter ∷ []))) ∷ [])
        (("cache_percentage", hundredths 31)
          ∷ ("num_sample_worker", int 2)
          ∷ ("num_train_worker", int 6)
          ∷ [])
        c
  c ←
      multi_combo_multi_override "and"
        (("app", (among (app graphsage ∷ [])))
          ∷ ("dataset", (among (dataset uk_2006_05 ∷ [])))
          ∷ [])
        (("cache_percentage", hundredths 16)
          ∷ ("num_sample_worker", int 1)
          ∷ ("num_train_worker", int 7)
          ∷ [])
        c
  c ←
      multi_combo_multi_override "and"
        (("app", (among (app pinsage ∷ []))) ∷ ("dataset", (among (dataset products ∷ []))) ∷ [])
        (("cache_percentage", hundredths 100)
          ∷ ("num_sample_worker", int 1)
          ∷ ("num_train_worker", int 7)
          ∷ [])
        c
  c ←
      multi_combo_multi_override "and"
        (("app", (among (app pinsage ∷ []))) ∷ ("dataset", (among (dataset papers100m ∷ []))) ∷ [])
        (("cache_percentage", hundredths 21)
          ∷ ("num_sample_worker", int 1)
          ∷ ("num_train_worker", int 7)
          ∷ [])
        c
  c ←
      multi_combo_multi_override "and"
        (("app", (among (app pinsage ∷ []))) ∷ ("dataset", (among (dataset twitter ∷ []))) ∷ [])
        (("cache_percentage", hundredths 25)
          ∷ ("num_sample_worker", int 1)
          ∷ ("num_train_worker", int 7)
          ∷ [])
        c
  c ←
      multi_combo_multi_override "and"
        (("app", (among (app pinsage ∷ []))) ∷ ("dataset", (among (dataset uk_2006_05 ∷ []))) ∷ [])
        (("cache_percentage", hundredths 9)
          ∷ ("num_sample_worker", int 1)
          ∷ ("num_train_worker", int 7)
          ∷ [])
        c
  ok c

fgnn_overall_test : Test
unfolding get_fgnn_logtable fgnn_overall_configs
fgnn_overall_test = record {
  table = get_fgnn_logtable;
  configs = fgnn_overall_configs;
  app_dir = "../../example/samgraph/multi_gpu";
  log_dir = "logs_fgnn";
}

-- The tests that `run_table4_tests` calls, in order.
unfoldable pub table4_tests : List Test
unfolding dgl_overall_test dgl_pinsage_overall_test pyg_overall_test sgnn_overall_test
    fgnn_overall_test
table4_tests =
    dgl_overall_test ∷ dgl_pinsage_overall_test ∷ pyg_overall_test ∷ sgnn_overall_test
    ∷ fgnn_overall_test ∷ []
