-- ===== src/Experiments/Table5.antt =====
-- The functions `*_test` of exp/table5/run.py. A number such as 0.2 is `hundredths 20`.
pub mod Tables
use fgnn_artifacts.Prelude.{
  ℕ, Bool, true, List, [], ◌∷◌, ◌≡◌, refl, Result, ok, ◌>>=◌, text_discrete,
}
use fgnn_artifacts.Prelude.Text.{pad_right}
use fgnn_artifacts.Runner.Value.{
  gcn, graphsage, pinsage, products, papers100m, uk_2006_05, twitter, app, dataset, text, int,
  hundredths, among, within,
}
use fgnn_artifacts.Runner.LogTable.{
  LogTable, log_table, update_row_definition, update_col_definition, create,
}
use fgnn_artifacts.Runner.ConfigList.{
  ConfigList, config_list, select, override, combo, multi_combo, multi_combo_multi_override,
  multi_combo_multi_override_list,
}
use fgnn_artifacts.Experiments.Testing.{Test, workers}
use fgnn_artifacts.Experiments.Table5.Tables.{
  get_dgl_logtable, get_dgl_pinsage_logtable, get_pyg_logtable, get_sgnn_logtable,
  get_fgnn_logtable,
}

dgl_breakdown_configs : ℕ → Result ConfigList
unfolding config_list combo override select pad_right
dgl_breakdown_configs num_epoch = do
  let c = config_list (pad_right 25 "DGL Breakdown Test")
  c ← select "app" (among (app gcn ∷ app graphsage ∷ [])) c
  let c = override "num_epoch" (int num_epoch ∷ []) c
  c ← combo "app" (among (app gcn ∷ [])) "fanout" (text "5 10 15" ∷ []) c
  c ← combo "app" (among (app graphsage ∷ [])) "fanout" (text "25 10" ∷ []) c
  c ←
      combo "app" (among (app gcn ∷ app graphsage ∷ [])) "BOOL_use_gpu_sampling"
        (text "use_gpu_sampling" ∷ []) c
  let c = override "BOOL_pipelining" (text "no_pipelining" ∷ []) c
  let c = override "devices" (text "0" ∷ []) c
  ok c

dgl_breakdown_test : Test
unfolding get_dgl_logtable dgl_breakdown_configs
dgl_breakdown_test = record {
  table = get_dgl_logtable;
  configs = dgl_breakdown_configs;
  app_dir = "../../example/dgl/multi_gpu";
  log_dir = "logs_dgl";
}

dgl_pinsage_breakdown_configs : ℕ → Result ConfigList
unfolding config_list override select pad_right
dgl_pinsage_breakdown_configs num_epoch = do
  let c = config_list (pad_right 25 "DGL PinSAGE Breakdown test")
  c ← select "app" (among (app pinsage ∷ [])) c
  c ←
      select "dataset"
        (among (dataset products ∷ dataset papers100m ∷ dataset twitter ∷ dataset uk_2006_05 ∷ []))
        c
  let c = override "num_epoch" (int num_epoch ∷ []) c
  let c = override "BOOL_use_gpu_sampling" (text "use_gpu_sampling" ∷ []) c
  let c = override "BOOL_pipeline" (text "no_pipelining" ∷ []) c
  let c = override "devices" (text "0" ∷ []) c
  ok c

dgl_pinsage_breakdown_test : Test
unfolding get_dgl_pinsage_logtable dgl_pinsage_breakdown_configs
dgl_pinsage_breakdown_test = record {
  table = get_dgl_pinsage_logtable;
  configs = dgl_pinsage_breakdown_configs;
  app_dir = "../../example/dgl/multi_gpu";
  log_dir = "logs_dgl_pinsage";
}

pyg_breakdown_configs : ℕ → Result ConfigList
unfolding config_list override select pad_right
pyg_breakdown_configs num_epoch = do
  let c = config_list (pad_right 25 "PyG Breakdown Test")
  c ← select "app" (among (app gcn ∷ app graphsage ∷ [])) c
  let c = override "num_epoch" (int num_epoch ∷ []) c
  let c = override "BOOL_pipelining" (text "no_pipelining" ∷ []) c
  let c = override "num_sampling_worker" (int 40 ∷ []) c
  let c = override "devices" (text "0" ∷ []) c
  ok c

pyg_breakdown_test : Test
unfolding get_pyg_logtable pyg_breakdown_configs
pyg_breakdown_test = record {
  table = get_pyg_logtable;
  configs = pyg_breakdown_configs;
  app_dir = "../../example/pyg/multi_gpu";
  log_dir = "logs_pyg";
}

sgnn_breakdown_configs : ℕ → Result ConfigList
unfolding config_list combo multi_combo override select pad_right
sgnn_breakdown_configs num_epoch = do
  let c = config_list (pad_right 25 "SGNN Breakdown Test")
  c ← select "app" (among (app gcn ∷ app graphsage ∷ app pinsage ∷ [])) c
  c ← combo "app" (among (app gcn ∷ app graphsage ∷ [])) "sample_type" (text "khop2" ∷ []) c
  c ← combo "app" (among (app pinsage ∷ [])) "sample_type" (text "random_walk" ∷ []) c
  let c = override "num_epoch" (int num_epoch ∷ []) c
  let c = override "omp-thread-num" (int 40 ∷ []) c
  c ← combo "app" (among (app gcn ∷ [])) "fanout" (text "5 10 15" ∷ []) c
  c ← combo "app" (among (app graphsage ∷ [])) "fanout" (text "25 10" ∷ []) c
  let c = override "BOOL_pipeline" (text "no_pipeline" ∷ []) c
  c ←
      multi_combo "and"
        (("app", (among (app gcn ∷ []))) ∷ ("dataset", (among (dataset products ∷ []))) ∷ [])
        "cache_percentage" (text "1.0" ∷ []) c
  c ←
      multi_combo "and"
        (("app", (among (app gcn ∷ []))) ∷ ("dataset", (among (dataset papers100m ∷ []))) ∷ [])
        "cache_percentage" (text "0.07" ∷ []) c
  c ←
      multi_combo "and"
        (("app", (among (app gcn ∷ []))) ∷ ("dataset", (among (dataset twitter ∷ []))) ∷ [])
        "cache_percentage" (text "0.01" ∷ []) c
  c ←
      multi_combo "and"
        (("app", (among (app gcn ∷ []))) ∷ ("dataset", (among (dataset uk_2006_05 ∷ []))) ∷ [])
        "cache_percentage" (text "0.0" ∷ []) c
  c ←
      multi_combo "and"
        (("app", (among (app graphsage ∷ []))) ∷ ("dataset", (among (dataset products ∷ []))) ∷ [])
        "cache_percentage" (text "1.0" ∷ []) c
  c ←
      multi_combo "and"
        (("app", (among (app graphsage ∷ [])))
          ∷ ("dataset", (among (dataset papers100m ∷ [])))
          ∷ [])
        "cache_percentage" (text "0.11" ∷ []) c
  c ←
      multi_combo "and"
        (("app", (among (app graphsage ∷ []))) ∷ ("dataset", (among (dataset twitter ∷ []))) ∷ [])
        "cache_percentage" (text "0.15" ∷ []) c
  c ←
      multi_combo "and"
        (("app", (among (app graphsage ∷ [])))
          ∷ ("dataset", (among (dataset uk_2006_05 ∷ [])))
          ∷ [])
        "cache_percentage" (text "0.0" ∷ []) c
  c ←
      multi_combo "and"
        (("app", (among (app pinsage ∷ []))) ∷ ("dataset", (among (dataset products ∷ []))) ∷ [])
        "cache_percentage" (text "1.0" ∷ []) c
  c ←
      multi_combo "and"
        (("app", (among (app pinsage ∷ []))) ∷ ("dataset", (among (dataset papers100m ∷ []))) ∷ [])
        "cache_percentage" (text "0.06" ∷ []) c
  c ←
      multi_combo "and"
        (("app", (among (app pinsage ∷ []))) ∷ ("dataset", (among (dataset twitter ∷ []))) ∷ [])
        "cache_percentage" (text "0.04" ∷ []) c
  c ←
      multi_combo "and"
        (("app", (among (app pinsage ∷ []))) ∷ ("dataset", (among (dataset uk_2006_05 ∷ []))) ∷ [])
        "cache_percentage" (text "0.0" ∷ []) c
  ok c

sgnn_breakdown_test : Test
unfolding get_sgnn_logtable sgnn_breakdown_configs
sgnn_breakdown_test = record {
  table = get_sgnn_logtable;
  configs = sgnn_breakdown_configs;
  app_dir = "../../example/samgraph/sgnn";
  log_dir = "logs_sgnn";
}

fgnn_breakdown_configs : ℕ → Result ConfigList
unfolding config_list combo multi_combo override select pad_right
fgnn_breakdown_configs num_epoch = do
  let c = config_list (pad_right 25 "FGNN Breakdown Test")
  c ← select "app" (among (app gcn ∷ app graphsage ∷ app pinsage ∷ [])) c
  c ← combo "app" (among (app gcn ∷ app graphsage ∷ [])) "sample_type" (text "khop2" ∷ []) c
  c ← combo "app" (among (app pinsage ∷ [])) "sample_type" (text "random_walk" ∷ []) c
  let c = override "num_epoch" (int num_epoch ∷ []) c
  let c = override "omp-thread-num" (int 40 ∷ []) c
  c ← combo "app" (among (app gcn ∷ [])) "fanout" (text "5 10 15" ∷ []) c
  c ← combo "app" (among (app graphsage ∷ [])) "fanout" (text "25 10" ∷ []) c
  let c = override "BOOL_pipeline" (text "no_pipeline" ∷ []) c
  c ←
      multi_combo "and"
        (("app", (among (app gcn ∷ []))) ∷ ("dataset", (among (dataset products ∷ []))) ∷ [])
        "cache_percentage" (text "1.0" ∷ []) c
  c ←
      multi_combo "and"
        (("app", (among (app gcn ∷ []))) ∷ ("dataset", (among (dataset papers100m ∷ []))) ∷ [])
        "cache_percentage" (text "0.21" ∷ []) c
  c ←
      multi_combo "and"
        (("app", (among (app gcn ∷ []))) ∷ ("dataset", (among (dataset twitter ∷ []))) ∷ [])
        "cache_percentage" (text "0.25" ∷ []) c
  c ←
      multi_combo "and"
        (("app", (among (app gcn ∷ []))) ∷ ("dataset", (among (dataset uk_2006_05 ∷ []))) ∷ [])
        "cache_percentage" (text "0.14" ∷ []) c
  c ←
      multi_combo "and"
        (("app", (among (app graphsage ∷ []))) ∷ ("dataset", (among (dataset products ∷ []))) ∷ [])
        "cache_percentage" (text "1.0" ∷ []) c
  c ←
      multi_combo "and"
        (("app", (among (app graphsage ∷ [])))
          ∷ ("dataset", (among (dataset papers100m ∷ [])))
          ∷ [])
        "cache_percentage" (text "0.25" ∷ []) c
  c ←
      multi_combo "and"
        (("app", (among (app graphsage ∷ []))) ∷ ("dataset", (among (dataset twitter ∷ []))) ∷ [])
        "cache_percentage" (text "0.32" ∷ []) c
  c ←
      multi_combo "and"
        (("app", (among (app graphsage ∷ [])))
          ∷ ("dataset", (among (dataset uk_2006_05 ∷ [])))
          ∷ [])
        "cache_percentage" (text "0.18" ∷ []) c
  c ←
      multi_combo "and"
        (("app", (among (app pinsage ∷ []))) ∷ ("dataset", (among (dataset products ∷ []))) ∷ [])
        "cache_percentage" (text "1.0" ∷ []) c
  c ←
      multi_combo "and"
        (("app", (among (app pinsage ∷ []))) ∷ ("dataset", (among (dataset papers100m ∷ []))) ∷ [])
        "cache_percentage" (text "0.22" ∷ []) c
  c ←
      multi_combo "and"
        (("app", (among (app pinsage ∷ []))) ∷ ("dataset", (among (dataset twitter ∷ []))) ∷ [])
        "cache_percentage" (text "0.26" ∷ []) c
  c ←
      multi_combo "and"
        (("app", (among (app pinsage ∷ []))) ∷ ("dataset", (among (dataset uk_2006_05 ∷ []))) ∷ [])
        "cache_percentage" (text "0.13" ∷ []) c
  ok c

fgnn_breakdown_test : Test
unfolding get_fgnn_logtable fgnn_breakdown_configs
fgnn_breakdown_test = record {
  table = get_fgnn_logtable;
  configs = fgnn_breakdown_configs;
  app_dir = "../../example/samgraph/multi_gpu";
  log_dir = "logs_fgnn";
}

-- The tests that `run_table5_tests` calls, in order.
unfoldable pub table5_tests : List Test
unfolding dgl_breakdown_test dgl_pinsage_breakdown_test sgnn_breakdown_test fgnn_breakdown_test
table5_tests =
    dgl_breakdown_test ∷ dgl_pinsage_breakdown_test ∷ sgnn_breakdown_test ∷ fgnn_breakdown_test ∷ []
