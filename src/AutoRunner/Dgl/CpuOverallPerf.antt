-- ===== src/AutoRunner/Dgl/CpuOverallPerf.antt =====
-- cpu_overall_perf_test of example/auto_runner/run_dgl.py. A number such as 0.2 is `hundredths 20`.
use fgnn_artifacts.Prelude.{[], ◌∷◌, Result, ok, ◌>>=◌}
use fgnn_artifacts.Runner.Value.{gcn, graphsage, pinsage, app, wide, text, int, among}
use fgnn_artifacts.AutoRunner.Datasets.{products, papers100m, twitter}
use fgnn_artifacts.Runner.LogTable.{
  LogTable, log_table, update_row_definition, update_col_definition, create,
}
use fgnn_artifacts.Runner.ConfigList.{ConfigList, override, combo}
use fgnn_artifacts.AutoRunner.Common.{config_list}
use fgnn_artifacts.AutoRunner.Testing.{Test}

cpu_overall_perf_table : Result LogTable
unfolding log_table update_col_definition update_row_definition create
cpu_overall_perf_table = do
  let t = log_table 6 1 []
  t ← update_col_definition 0 "epoch_time" t
  t ← update_row_definition 0 0 0 (("app", app gcn) ∷ ("dataset", wide products) ∷ []) t
  t ← update_row_definition 1 0 0 (("app", app gcn) ∷ ("dataset", wide papers100m) ∷ []) t
  t ← update_row_definition 2 0 0 (("app", app gcn) ∷ ("dataset", wide twitter) ∷ []) t
  t ← update_row_definition 3 0 0 (("app", app graphsage) ∷ ("dataset", wide products) ∷ []) t
  t ← update_row_definition 4 0 0 (("app", app graphsage) ∷ ("dataset", wide papers100m) ∷ []) t
  t ← update_row_definition 5 0 0 (("app", app graphsage) ∷ ("dataset", wide twitter) ∷ []) t
  create t

cpu_overall_perf_configs : Result ConfigList
unfolding config_list combo override
cpu_overall_perf_configs = do
  let c = config_list "DGL CPU overall performance test"
  let c = override "num_epoch" (int 10 ∷ []) c
  c ← combo "app" (among (app pinsage ∷ [])) "num_epoch" (int 1 ∷ []) c
  let c = override "devices" (text "0 1 2 3 4 5 6 7" ∷ []) c
  let c = override "num_sampling_worker" (int 24 ∷ []) c
  let c = override "BOOL_pipelining" (text "pipelining" ∷ []) c
  c ←
      combo "app" (among (app gcn ∷ app graphsage ∷ [])) "BOOL_use_gpu_sampling"
        (text "no_use_gpu_sampling" ∷ []) c
  ok c

unfoldable pub cpu_overall_perf_test : Test
unfolding cpu_overall_perf_table cpu_overall_perf_configs
cpu_overall_perf_test = record {
  table = cpu_overall_perf_table;
  configs = cpu_overall_perf_configs;
}
