-- ===== src/Experiments/Fig14a.antt =====
-- The functions `*_test` of exp/fig14a/run.py. A number such as 0.2 is `hundredths 20`.
pub mod Tables
use fgnn_artifacts.Prelude.{
  ℕ, Bool, true, List, [], ◌∷◌, ◌≡◌, refl, Result, ok, ◌>>=◌, text_discrete,
}
use fgnn_artifacts.Prelude.Text.{pad_right}
use fgnn_artifacts.Runner.Value.{
  gcn, graphsage, pinsage, products, papers100m, uk_2006_05, twitter, app, dataset, text, int,
  hundredths, among, within,
}
use fgnn_artifacts.Runner.LogTable.{
  LogTable, log_table, update_row_definition, update_col_definition, create,
}
use fgnn_artifacts.Runner.ConfigList.{
  ConfigList, config_list, select, override, combo, multi_combo, multi_combo_multi_override,
  multi_combo_multi_override_list,
}
use fgnn_artifacts.Experiments.Testing.{Test, workers}
use fgnn_artifacts.Experiments.Fig14a.Tables.{
  get_dgl_logtable, get_fgnn_logtable, get_sgnn_logtable,
}

dgl_scalability_configs : ℕ → Result ConfigList
unfolding config_list override select
dgl_scalability_configs num_epoch = do
  let c = config_list "DGL  GCN Scalability Test"
  c ← select "app" (among (app gcn ∷ [])) c
  c ← select "dataset" (among (dataset papers100m ∷ [])) c
  let c = override "fanout" (text "5 10 15" ∷ []) c
  let c = override "num_epoch" (int num_epoch ∷ []) c
  let c =
      override "devices"
        (text "0"
          ∷ text "0 1"
          ∷ text "0 1 2"
          ∷ text "0 1 2 3"
          ∷ text "0 1 2 3 4"
          ∷ text "0 1 2 3 4 5"
          ∷ text "0 1 2 3 4 5 6"
          ∷ text "0 1 2 3 4 5 6 7"
          ∷ [])
        c
  let c = override "BOOL_pipelining" (text "pipelining" ∷ []) c
  let c = override "BOOL_use_gpu_sampling" (text "use_gpu_sampling" ∷ []) c
  ok c

dgl_scalability_test : Test
unfolding get_dgl_logtable dgl_scalability_configs
dgl_scalability_test = record {
  table = get_dgl_logtable;
  configs = dgl_scalability_configs;
  app_dir = "../../example/dgl/multi_gpu";
  log_dir = "logs_dgl";
}

fgnn_scalability_configs : ℕ → Result ConfigList
unfolding config_list combo multi_combo_multi_override_list override select
fgnn_scalability_configs num_epoch = do
  let c = config_list "FGNN GCN Scalability Test"
  c ← select "app" (among (app gcn ∷ [])) c
  c ← select "dataset" (among (dataset papers100m ∷ [])) c
  let c = override "sample_type" (text "khop2" ∷ []) c
  let c = override "num_epoch" (int num_epoch ∷ []) c
  let c = override "omp-thread-num" (int 40 ∷ []) c
  c ← combo "app" (among (app gcn ∷ [])) "fanout" (text "5 10 15" ∷ []) c
  c ←
      multi_combo_multi_override_list "and" (("app", (among (app gcn ∷ []))) ∷ [])
        ((workers 1 1 "pipeline" 20)
          ∷ (workers 1 2 "pipeline" 20)
          ∷ (workers 1 3 "pipeline" 20)
          ∷ (workers 1 4 "pipeline" 20)
          ∷ (workers 1 5 "pipeline" 20)
          ∷ (workers 1 6 "pipeline" 20)
          ∷ (workers 1 7 "pipeline" 20)
          ∷ (workers 2 1 "pipeline" 20)
          ∷ (workers 2 2 "pipeline" 20)
          ∷ (workers 2 3 "pipeline" 20)
          ∷ (workers 2 4 "pipeline" 20)
          ∷ (workers 2 5 "pipeline" 20)
          ∷ (workers 2 6 "pipeline" 20)
          ∷ (workers 3 1 "pipeline" 20)
          ∷ (workers 3 2 "pipeline" 19)
          ∷ (workers 3 3 "pipeline" 19)
          ∷ (workers 3 4 "pipeline" 19)
          ∷ (workers 3 5 "pipeline" 20)
          ∷ [])
        c
  ok c

fgnn_scalability_test : Test
unfolding get_fgnn_logtable fgnn_scalability_configs
fgnn_scalability_test = record {
  table = get_fgnn_logtable;
  configs = fgnn_scalability_configs;
  app_dir = "../../example/samgraph/multi_gpu";
  log_dir = "logs_fgnn";
}

sgnn_scalability_configs : ℕ → Result ConfigList
unfolding config_list override select
sgnn_scalability_configs num_epoch = do
  let c = config_list "SGNN GCN scalability test"
  c ← select "app" (among (app gcn ∷ [])) c
  c ← select "dataset" (among (dataset papers100m ∷ [])) c
  let c = override "num_epoch" (int num_epoch ∷ []) c
  let c = override "cache_policy" (text "degree" ∷ []) c
  let c = override "cache_percentage" (hundredths 3 ∷ []) c
  let c =
      override "num_worker" (int 1 ∷ int 2 ∷ int 3 ∷ int 4 ∷ int 5 ∷ int 6 ∷ int 7 ∷ int 8 ∷ []) c
  let c = override "BOOL_pipeline" (text "no_pipeline" ∷ []) c
  ok c

sgnn_scalability_test : Test
unfolding get_sgnn_logtable sgnn_scalability_configs
sgnn_scalability_test = record {
  table = get_sgnn_logtable;
  configs = sgnn_scalability_configs;
  app_dir = "../../example/samgraph/sgnn";
  log_dir = "logs_sgnn";
}

-- The tests that `run_fig14a_tests` calls, in order.
unfoldable pub fig14a_tests : List Test
unfolding dgl_scalability_test sgnn_scalability_test fgnn_scalability_test
fig14a_tests = dgl_scalability_test ∷ sgnn_scalability_test ∷ fgnn_scalability_test ∷ []
