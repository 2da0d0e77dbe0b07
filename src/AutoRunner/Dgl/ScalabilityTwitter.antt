-- ===== src/AutoRunner/Dgl/ScalabilityTwitter.antt =====
-- scalability_twitter_test of example/auto_runner/run_dgl.py. A number such as 0.2 is `hundredths 20`.
use fgnn_artifacts.Prelude.{[], ◌∷◌, Result, ok, ◌>>=◌}
use fgnn_artifacts.Runner.Value.{gcn, app, wide, text, int, among}
use fgnn_artifacts.AutoRunner.Datasets.{twitter}
use fgnn_artifacts.Runner.LogTable.{
  LogTable, log_table, update_row_definition, update_col_definition, create,
}
use fgnn_artifacts.Runner.ConfigList.{ConfigList, select, override}
use fgnn_artifacts.AutoRunner.Common.{config_list}
use fgnn_artifacts.AutoRunner.Testing.{Test}

scalability_twitter_table : Result LogTable
unfolding log_table update_col_definition update_row_definition create
scalability_twitter_table = do
  let t = log_table 8 1 []
  t ← update_col_definition 0 "epoch_time" t
  t ← update_row_definition 0 0 0 (("devices", text "0") ∷ []) t
  t ← update_row_definition 1 0 0 (("devices", text "0 1") ∷ []) t
  t ← update_row_definition 2 0 0 (("devices", text "0 1 2") ∷ []) t
  t ← update_row_definition 3 0 0 (("devices", text "0 1 2 3") ∷ []) t
  t ← update_row_definition 4 0 0 (("devices", text "0 1 2 3 4") ∷ []) t
  t ← update_row_definition 5 0 0 (("devices", text "0 1 2 3 4 5") ∷ []) t
  t ← update_row_definition 6 0 0 (("devices", text "0 1 2 3 4 5 6") ∷ []) t
  t ← update_row_definition 7 0 0 (("devices", text "0 1 2 3 4 5 6 7") ∷ []) t
  create t

scalability_twitter_configs : Result ConfigList
unfolding config_list override select
scalability_twitter_configs = do
  let c = config_list "DGL Twitter scalability test"
  c ← select "app" (among (app gcn ∷ [])) c
  c ← select "dataset" (among (wide twitter ∷ [])) c
  let c = override "fanout" (text "5 10 15" ∷ []) c
  let c = override "num_epoch" (int 10 ∷ []) c
  let c =
      override "devices"
        (text "0"
          ∷ text "0 1"
          ∷ text "0 1 2"
          ∷ text "0 1 2 3"
          ∷ text "0 1 2 3 4"
          ∷ text "0 1 2 3 4 5"
          ∷ text "0 1 2 3 4 5 6"
          ∷ text "0 1 2 3 4 5 6 7"
          ∷ [])
        c
  let c = override "BOOL_pipelining" (text "pipelining" ∷ []) c
  let c = override "BOOL_use_gpu_sampling" (text "use_gpu_sampling" ∷ []) c
  ok c

unfoldable pub scalability_twitter_test : Test
unfolding scalability_twitter_table scalability_twitter_configs
scalability_twitter_test = record {
  table = scalability_twitter_table;
  configs = scalability_twitter_configs;
}
