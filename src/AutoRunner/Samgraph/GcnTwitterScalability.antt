-- ===== src/AutoRunner/Samgraph/GcnTwitterScalability.antt =====
-- gcn_twitter_scalability_test of example/auto_runner/run_samgraph.py. A number such as 0.2 is `hundredths 20`.
use fgnn_artifacts.Prelude.{[], ◌∷◌, Result, ok, ◌>>=◌}
use fgnn_artifacts.Runner.Value.{gcn, app, wide, text, int, among}
use fgnn_artifacts.AutoRunner.Datasets.{twitter}
use fgnn_artifacts.Runner.LogTable.{
  LogTable, log_table, update_row_definition, update_col_definition, create,
}
use fgnn_artifacts.Runner.ConfigList.{
  ConfigList, select, override, combo, multi_combo_multi_override_list,
}
use fgnn_artifacts.AutoRunner.Common.{config_list}
use fgnn_artifacts.AutoRunner.Testing.{Test, workers}

gcn_twitter_scalability_table : Result LogTable
unfolding log_table update_col_definition update_row_definition create
gcn_twitter_scalability_table = do
  let t = log_table 18 1 []
  t ← update_col_definition 0 "pipeline_train_epoch_time" t
  t ←
      update_row_definition 0 0 0 (("num_sample_worker", int 1) ∷ ("num_train_worker", int 1) ∷ [])
        t
  t ←
      update_row_definition 1 0 0 (("num_sample_worker", int 1) ∷ ("num_train_worker", int 2) ∷ [])
        t
  t ←
      update_row_definition 2 0 0 (("num_sample_worker", int 1) ∷ ("num_train_worker", int 3) ∷ [])
        t
  t ←
      update_row_definition 3 0 0 (("num_sample_worker", int 1) ∷ ("num_train_worker", int 4) ∷ [])
        t
  t ←
      update_row_definition 4 0 0 (("num_sample_worker", int 1) ∷ ("num_train_worker", int 5) ∷ [])
        t
  t ←
      update_row_definition 5 0 0 (("num_sample_worker", int 1) ∷ ("num_train_worker", int 6) ∷ [])
        t
  t ←
      update_row_definition 6 0 0 (("num_sample_worker", int 1) ∷ ("num_train_worker", int 7) ∷ [])
        t
  t ←
      update_row_definition 7 0 0 (("num_sample_worker", int 2) ∷ ("num_train_worker", int 1) ∷ [])
        t
  t ←
      update_row_definition 8 0 0 (("num_sample_worker", int 2) ∷ ("num_train_worker", int 2) ∷ [])
        t
  t ←
      update_row_definition 9 0 0 (("num_sample_worker", int 2) ∷ ("num_train_worker", int 3) ∷ [])
        t
  t ←
      update_row_definition 10 0 0 (("num_sample_worker", int 2) ∷ ("num_train_worker", int 4) ∷ [])
        t
  t ←
      update_row_definition 11 0 0 (("num_sample_worker", int 2) ∷ ("num_train_worker", int 5) ∷ [])
        t
  t ←
      update_row_definition 12 0 0 (("num_sample_worker", int 2) ∷ ("num_train_worker", int 6) ∷ [])
        t
  t ←
      update_row_definition 13 0 0 (("num_sample_worker", int 3) ∷ ("num_train_worker", int 1) ∷ [])
        t
  t ←
      update_row_definition 14 0 0 (("num_sample_worker", int 3) ∷ ("num_train_worker", int 2) ∷ [])
        t
  t ←
      update_row_definition 15 0 0 (("num_sample_worker", int 3) ∷ ("num_train_worker", int 3) ∷ [])
        t
  t ←
      update_row_definition 16 0 0 (("num_sample_worker", int 3) ∷ ("num_train_worker", int 4) ∷ [])
        t
  t ←
      update_row_definition 17 0 0 (("num_sample_worker", int 3) ∷ ("num_train_worker", int 5) ∷ [])
        t
  create t

gcn_twitter_scalability_configs : Result ConfigList
unfolding config_list combo multi_combo_multi_override_list override select
gcn_twitter_scalability_configs = do
  let c = config_list "Samgraph GCN Twitter scalability test"
  c ← select "app" (among (app gcn ∷ [])) c
  c ← select "dataset" (among (wide twitter ∷ [])) c
  let c = override "sample_type" (text "khop2" ∷ []) c
  let c = override "num_epoch" (int 10 ∷ []) c
  let c = override "omp-thread-num" (int 40 ∷ []) c
  c ← combo "app" (among (app gcn ∷ [])) "fanout" (text "5 10 15" ∷ []) c
  c ←
      multi_combo_multi_override_list "and" (("app", (among (app gcn ∷ []))) ∷ [])
        ((workers 1 1 "pipeline" 20)
          ∷ (workers 1 2 "pipeline" 20)
          ∷ (workers 1 3 "pipeline" 20)
          ∷ (workers 1 4 "pipeline" 20)
          ∷ (workers 1 5 "pipeline" 20)
          ∷ (workers 1 6 "pipeline" 20)
          ∷ (workers 1 7 "pipeline" 20)
          ∷ (workers 2 1 "pipeline" 20)
          ∷ (workers 2 2 "pipeline" 20)
          ∷ (workers 2 3 "pipeline" 18)
          ∷ (workers 2 4 "pipeline" 20)
          ∷ (workers 2 5 "pipeline" 19)
          ∷ (workers 2 6 "pipeline" 18)
          ∷ (workers 3 1 "pipeline" 20)
          ∷ (workers 3 2 "pipeline" 20)
          ∷ (workers 3 3 "pipeline" 20)
          ∷ (workers 3 4 "pipeline" 20)
          ∷ (workers 3 5 "pipeline" 19)
          ∷ [])
        c
  ok c

unfoldable pub gcn_twitter_scalability_test : Test
unfolding gcn_twitter_scalability_table gcn_twitter_scalability_configs
gcn_twitter_scalability_test = record {
  table = gcn_twitter_scalability_table;
  configs = gcn_twitter_scalability_configs;
}
