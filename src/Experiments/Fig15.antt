-- ===== src/Experiments/Fig15.antt =====
-- The functions `*_test` of exp/fig15/run.py. A number such as 0.2 is `hundredths 20`.
pub mod Tables
use fgnn_artifacts.Prelude.{
  ℕ, Bool, true, List, [], ◌∷◌, ◌≡◌, refl, Result, ok, ◌>>=◌, text_discrete,
}
use fgnn_artifacts.Prelude.Text.{pad_right}
use fgnn_artifacts.Runner.Value.{
  gcn, graphsage, pinsage, products, papers100m, uk_2006_05, twitter, app, dataset, text, int,
  hundredths, among, within,
}
use fgnn_artifacts.Runner.LogTable.{
  LogTable, log_table, update_row_definition, update_col_definition, create,
}
use fgnn_artifacts.Runner.ConfigList.{
  ConfigList, config_list, select, override, combo, multi_combo, multi_combo_multi_override,
  multi_combo_multi_override_list,
}
use fgnn_artifacts.Experiments.Testing.{Test, workers}
use fgnn_artifacts.Experiments.Fig15.Tables.{get_fgnn_logtable}

fgnn_scalability_breakdown_configs : ℕ → Result ConfigList
unfolding config_list combo multi_combo_multi_override_list override select
fgnn_scalability_breakdown_configs num_epoch = do
  let c = config_list "FGNN GCN Scalability Breakdown Test"
  c ← select "app" (among (app gcn ∷ [])) c
  c ← select "dataset" (among (dataset papers100m ∷ [])) c
  let c = override "sample_type" (text "khop2" ∷ []) c
  let c = override "num_epoch" (int num_epoch ∷ []) c
  let c = override "omp-thread-num" (int 40 ∷ []) c
  c ← combo "app" (among (app gcn ∷ [])) "fanout" (text "5 10 15" ∷ []) c
  c ←
      multi_combo_multi_override_list "and" (("app", (among (app gcn ∷ []))) ∷ [])
        ((workers 1 1 "pipeline" 20)
          ∷ (workers 1 2 "pipeline" 20)
          ∷ (workers 1 3 "pipeline" 20)
          ∷ (workers 1 4 "pipeline" 20)
          ∷ (workers 1 5 "pipeline" 20)
          ∷ (workers 1 6 "pipeline" 20)
          ∷ (workers 1 7 "pipeline" 20)
          ∷ (workers 2 1 "pipeline" 20)
          ∷ (workers 2 2 "pipeline" 20)
          ∷ (workers 2 3 "pipeline" 20)
          ∷ (workers 2 4 "pipeline" 20)
          ∷ (workers 2 5 "pipeline" 20)
          ∷ (workers 2 6 "pipeline" 20)
          ∷ (workers 3 1 "pipeline" 20)
          ∷ (workers 3 2 "pipeline" 19)
          ∷ (workers 3 3 "pipeline" 19)
          ∷ (workers 3 4 "pipeline" 19)
          ∷ (workers 3 5 "pipeline" 20)
          ∷ (workers 1 1 "no_pipeline" 20)
          ∷ (workers 1 2 "no_pipeline" 20)
          ∷ (workers 1 3 "no_pipeline" 20)
          ∷ (workers 1 4 "no_pipeline" 20)
          ∷ (workers 1 5 "no_pipeline" 20)
          ∷ (workers 1 6 "no_pipeline" 20)
          ∷ (workers 1 7 "no_pipeline" 20)
          ∷ (workers 2 1 "no_pipeline" 20)
          ∷ (workers 2 2 "no_pipeline" 20)
          ∷ (workers 2 3 "no_pipeline" 20)
          ∷ (workers 2 4 "no_pipeline" 20)
          ∷ (workers 2 5 "no_pipeline" 20)
          ∷ (workers 2 6 "no_pipeline" 20)
          ∷ (workers 3 1 "no_pipeline" 20)
          ∷ (workers 3 2 "no_pipeline" 19)
          ∷ (workers 3 3 "no_pipeline" 19)
          ∷ (workers 3 4 "no_pipeline" 19)
          ∷ (workers 3 5 "no_pipeline" 20)
          ∷ [])
        c
  ok c

fgnn_scalability_breakdown_test : Test
unfolding get_fgnn_logtable fgnn_scalability_breakdown_configs
fgnn_scalability_breakdown_test = record {
  table = get_fgnn_logtable;
  configs = fgnn_scalability_breakdown_configs;
  app_dir = "../../example/samgraph/multi_gpu";
  log_dir = "logs_fgnn";
}

-- The tests that `run_fig15_tests` calls, in order.
unfoldable pub fig15_tests : List Test
unfolding fgnn_scalability_breakdown_test
fig15_tests = fgnn_scalability_breakdown_test ∷ []
