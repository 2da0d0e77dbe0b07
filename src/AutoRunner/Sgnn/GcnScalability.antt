-- ===== src/AutoRunner/Sgnn/GcnScalability.antt =====
-- gcn_scalability_test of example/auto_runner/run_sgnn.py. A number such as 0.2 is `hundredths 20`.
use fgnn_artifacts.Prelude.{[], ◌∷◌, Result, ok, ◌>>=◌}
use fgnn_artifacts.Runner.Value.{gcn, app, wide, text, int, hundredths, among}
use fgnn_artifacts.AutoRunner.Datasets.{papers100m}
use fgnn_artifacts.Runner.LogTable.{
  LogTable, log_table, update_row_definition, update_col_definition, create,
}
use fgnn_artifacts.Runner.ConfigList.{ConfigList, select, override}
use fgnn_artifacts.AutoRunner.Common.{config_list}
use fgnn_artifacts.AutoRunner.Testing.{Test}

gcn_scalability_table : Result LogTable
unfolding log_table update_col_definition update_row_definition create
gcn_scalability_table = do
  let t = log_table 8 4 []
  t ← update_col_definition 0 "epoch_time:sample_time" t
  t ← update_col_definition 1 "epoch_time:copy_time" t
  t ← update_col_definition 2 "epoch_time:train_total" t
  t ← update_col_definition 3 "epoch_time:total" t
  t ← update_row_definition 0 0 3 (("num_worker", int 1) ∷ []) t
  t ← update_row_definition 1 0 3 (("num_worker", int 2) ∷ []) t
  t ← update_row_definition 2 0 3 (("num_worker", int 3) ∷ []) t
  t ← update_row_definition 3 0 3 (("num_worker", int 4) ∷ []) t
  t ← update_row_definition 4 0 3 (("num_worker", int 5) ∷ []) t
  t ← update_row_definition 5 0 3 (("num_worker", int 6) ∷ []) t
  t ← update_row_definition 6 0 3 (("num_worker", int 7) ∷ []) t
  t ← update_row_definition 7 0 3 (("num_worker", int 8) ∷ []) t
  create t

gcn_scalability_configs : Result ConfigList
unfolding config_list override select
gcn_scalability_configs = do
  let c = config_list "SGNN GCN scalability test"
  c ← select "app" (among (app gcn ∷ [])) c
  c ← select "dataset" (among (wide papers100m ∷ [])) c
  let c = override "num_epoch" (int 10 ∷ []) c
  let c = override "cache_policy" (text "degree" ∷ []) c
  let c = override "cache_percentage" (hundredths 3 ∷ []) c
  let c =
      override "num_worker" (int 1 ∷ int 2 ∷ int 3 ∷ int 4 ∷ int 5 ∷ int 6 ∷ int 7 ∷ int 8 ∷ []) c
  let c = override "BOOL_pipeline" (text "no_pipeline" ∷ []) c
  ok c

unfoldable pub gcn_scalability_test : Test
unfolding gcn_scalability_table gcn_scalability_configs
gcn_scalability_test = record { table = gcn_scalability_table; configs = gcn_scalability_configs }
