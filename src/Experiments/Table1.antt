-- ===== src/Experiments/Table1.antt =====
-- The functions `*_test` of exp/table1/run.py. A number such as 0.2 is `hundredths 20`.
pub mod Tables
use fgnn_artifacts.Prelude.{
  ℕ, Bool, true, List, [], ◌∷◌, ◌≡◌, refl, Result, ok, ◌>>=◌, text_discrete,
}
use fgnn_artifacts.Prelude.Text.{pad_right}
use fgnn_artifacts.Runner.Value.{
  gcn, graphsage, pinsage, products, papers100m, uk_2006_05, twitter, app, dataset, text, int,
  hundredths, among, within,
}
use fgnn_artifacts.Runner.LogTable.{
  LogTable, log_table, update_row_definition, update_col_definition, create,
}
use fgnn_artifacts.Runner.ConfigList.{
  ConfigList, config_list, select, override, combo, multi_combo, multi_combo_multi_override,
  multi_combo_multi_override_list,
}
use fgnn_artifacts.Experiments.Testing.{Test, workers}
use fgnn_artifacts.Experiments.Table1.Tables.{get_dgl_logtable, get_sgnn_logtable}

dgl_motivation_configs : ℕ → Result ConfigList
unfolding config_list override select
dgl_motivation_configs num_epoch = do
  let c = config_list "DGL  Motivation Test"
  c ← select "app" (among (app gcn ∷ [])) c
  c ← select "dataset" (among (dataset papers100m ∷ [])) c
  let c = override "num_epoch" (int num_epoch ∷ []) c
  let c = override "num_sampling_worker" (int 24 ∷ []) c
  let c =
      override "BOOL_use_gpu_sampling" (text "use_gpu_sampling" ∷ text "no_use_gpu_sampling" ∷ []) c
  let c = override "BOOL_pipelining" (text "no_pipelining" ∷ []) c
  let c = override "devices" (text "0" ∷ []) c
  ok c

dgl_motivation_test : Test
unfolding get_dgl_logtable dgl_motivation_configs
dgl_motivation_test = record {
  table = get_dgl_logtable;
  configs = dgl_motivation_configs;
  app_dir = "../../example/dgl/multi_gpu";
  log_dir = "logs_dgl";
}

sgnn_motivation_configs : ℕ → Result ConfigList
unfolding config_list combo override select
sgnn_motivation_configs num_epoch = do
  let c = config_list "SGNN Motivation Test"
  c ← select "app" (among (app gcn ∷ [])) c
  c ← select "dataset" (among (dataset papers100m ∷ [])) c
  let c = override "num_epoch" (int num_epoch ∷ []) c
  let c = override "fanout" (text "5 10 15" ∷ []) c
  let c = override "BOOL_pipeline" (text "no_pipeline" ∷ []) c
  let c = override "omp_thread_num" (int 40 ∷ []) c
  let c = override "arch" (text "arch0" ∷ text "arch2" ∷ []) c
  let c = override "cache_policy" (text "degree" ∷ []) c
  c ← combo "arch" (within "arch2") "cache_percentage" (hundredths 7 ∷ int 0 ∷ []) c
  c ← combo "arch" (within "arch0") "cache_percentage" (hundredths 20 ∷ int 0 ∷ []) c
  ok c

sgnn_motivation_test : Test
unfolding get_sgnn_logtable sgnn_motivation_configs
sgnn_motivation_test = record {
  table = get_sgnn_logtable;
  configs = sgnn_motivation_configs;
  app_dir = "../../example/samgraph";
  log_dir = "logs_sgnn";
}

-- The tests that `run_table1_tests` calls, in order.
unfoldable pub table1_tests : List Test
unfolding dgl_motivation_test sgnn_motivation_test
table1_tests = dgl_motivation_test ∷ sgnn_motivation_test ∷ []
