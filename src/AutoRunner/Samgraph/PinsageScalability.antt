-- ===== src/AutoRunner/Samgraph/PinsageScalability.antt =====
-- pinsage_scalability_test of example/auto_runner/run_samgraph.py. A number such as 0.2 is `hundredths 20`.
use fgnn_artifacts.Prelude.{[], ◌∷◌, Result, ok, ◌>>=◌}
use fgnn_artifacts.Runner.Value.{pinsage, app, wide, text, int, among}
use fgnn_artifacts.AutoRunner.Datasets.{papers100m}
use fgnn_artifacts.Runner.LogTable.{
  LogTable, log_table, update_row_definition, update_col_definition, create,
}
use fgnn_artifacts.Runner.ConfigList.{ConfigList, select, override, multi_combo_multi_override_list}
use fgnn_artifacts.AutoRunner.Common.{config_list}
use fgnn_artifacts.AutoRunner.Testing.{Test, workers}

pinsage_scalability_table_begin : Result LogTable
unfolding log_table update_col_definition update_row_definition
pinsage_scalability_table_begin = do
  let t = log_table 18 4 []
  t ← update_col_definition 0 "epoch_time:sample_total" t
  t ← update_col_definition 1 "epoch_time:copy_time" t
  t ← update_col_definition 2 "epoch_time:train_total" t
  t ← update_col_definition 3 "pipeline_train_epoch_time" t
  t ←
      update_row_definition 0 0 2
        (("num_sample_worker", int 1)
          ∷ ("num_train_worker", int 1)
          ∷ ("BOOL_pipeline", text "no_pipeline")
          ∷ [])
        t
  t ←
      update_row_definition 1 0 2
        (("num_sample_worker", int 1)
          ∷ ("num_train_worker", int 2)
          ∷ ("BOOL_pipeline", text "no_pipeline")
          ∷ [])
        t
  t ←
      update_row_definition 2 0 2
        (("num_sample_worker", int 1)
          ∷ ("num_train_worker", int 3)
          ∷ ("BOOL_pipeline", text "no_pipeline")
          ∷ [])
        t
  t ←
      update_row_definition 3 0 2
        (("num_sample_worker", int 1)
          ∷ ("num_train_worker", int 4)
          ∷ ("BOOL_pipeline", text "no_pipeline")
          ∷ [])
        t
  t ←
      update_row_definition 4 0 2
        (("num_sample_worker", int 1)
          ∷ ("num_train_worker", int 5)
          ∷ ("BOOL_pipeline", text "no_pipeline")
          ∷ [])
        t
  t ←
      update_row_definition 5 0 2
        (("num_sample_worker", int 1)
          ∷ ("num_train_worker", int 6)
          ∷ ("BOOL_pipeline", text "no_pipeline")
          ∷ [])
        t
  t ←
      update_row_definition 6 0 2
        (("num_sample_worker", int 1)
          ∷ ("num_train_worker", int 7)
          ∷ ("BOOL_pipeline", text "no_pipeline")
          ∷ [])
        t
  t ←
      update_row_definition 7 0 2
        (("num_sample_worker", int 2)
          ∷ ("num_train_worker", int 1)
          ∷ ("BOOL_pipeline", text "no_pipeline")
          ∷ [])
        t
  t ←
      update_row_definition 8 0 2
        (("num_sample_worker", int 2)
          ∷ ("num_train_worker", int 2)
          ∷ ("BOOL_pipeline", text "no_pipeline")
          ∷ [])
        t
  t ←
      update_row_definition 9 0 2
        (("num_sample_worker", int 2)
          ∷ ("num_train_worker", int 3)
          ∷ ("BOOL_pipeline", text "no_pipeline")
          ∷ [])
        t
  t ←
      update_row_definition 10 0 2
        (("num_sample_worker", int 2)
          ∷ ("num_train_worker", int 4)
          ∷ ("BOOL_pipeline", text "no_pipeline")
          ∷ [])
        t
  t ←
      update_row_definition 11 0 2
        (("num_sample_worker", int 2)
          ∷ ("num_train_worker", int 5)
          ∷ ("BOOL_pipeline", text "no_pipeline")
          ∷ [])
        t
  t ←
      update_row_definition 12 0 2
        (("num_sample_worker", int 2)
          ∷ ("num_train_worker", int 6)
          ∷ ("BOOL_pipeline", text "no_pipeline")
          ∷ [])
        t
  t ←
      update_row_definition 13 0 2
        (("num_sample_worker", int 3)
          ∷ ("num_train_worker", int 1)
          ∷ ("BOOL_pipeline", text "no_pipeline")
          ∷ [])
        t
  t ←
      update_row_definition 14 0 2
        (("num_sample_worker", int 3)
          ∷ ("num_train_worker", int 2)
          ∷ ("BOOL_pipeline", text "no_pipeline")
          ∷ [])
        t
  t ←
      update_row_definition 15 0 2
        (("num_sample_worker", int 3)
          ∷ ("num_train_worker", int 3)
          ∷ ("BOOL_pipeline", text "no_pipeline")
          ∷ [])
        t
  ok t

pinsage_scalability_table : Result LogTable
unfolding pinsage_scalability_table_begin update_row_definition create
pinsage_scalability_table = do
  t ← pinsage_scalability_table_begin
  t ←
      update_row_definition 16 0 2
        (("num_sample_worker", int 3)
          ∷ ("num_train_worker", int 4)
          ∷ ("BOOL_pipeline", text "no_pipeline")
          ∷ [])
        t
  t ←
      update_row_definition 17 0 2
        (("num_sample_worker", int 3)
          ∷ ("num_train_worker", int 5)
          ∷ ("BOOL_pipeline", text "no_pipeline")
          ∷ [])
        t
  t ←
      update_row_definition 0 3 3
        (("num_sample_worker", int 1)
          ∷ ("num_train_worker", int 1)
          ∷ ("BOOL_pipeline", text "pipeline")
          ∷ [])
        t
  t ←
      update_row_definition 1 3 3
        (("num_sample_worker", int 1)
          ∷ ("num_train_worker", int 2)
          ∷ ("BOOL_pipeline", text "pipeline")
          ∷ [])
        t
  t ←
      update_row_definition 2 3 3
        (("num_sample_worker", int 1)
          ∷ ("num_train_worker", int 3)
          ∷ ("BOOL_pipeline", text "pipeline")
          ∷ [])
        t
  t ←
      update_row_definition 3 3 3
        (("num_sample_worker", int 1)
          ∷ ("num_train_worker", int 4)
          ∷ ("BOOL_pipeline", text "pipeline")
          ∷ [])
        t
  t ←
      update_row_definition 4 3 3
        (("num_sample_worker", int 1)
          ∷ ("num_train_worker", int 5)
          ∷ ("BOOL_pipeline", text "pipeline")
          ∷ [])
        t
  t ←
      update_row_definition 5 3 3
        (("num_sample_worker", int 1)
          ∷ ("num_train_worker", int 6)
          ∷ ("BOOL_pipeline", text "pipeline")
          ∷ [])
        t
  t ←
      update_row_definition 6 3 3
        (("num_sample_worker", int 1)
          ∷ ("num_train_worker", int 7)
          ∷ ("BOOL_pipeline", text "pipeline")
          ∷ [])
        t
  t ←
      update_row_definition 7 3 3
        (("num_sample_worker", int 2)
          ∷ ("num_train_worker", int 1)
          ∷ ("BOOL_pipeline", text "pipeline")
          ∷ [])
        t
  t ←
      update_row_definition 8 3 3
        (("num_sample_worker", int 2)
          ∷ ("num_train_worker", int 2)
          ∷ ("BOOL_pipeline", text "pipeline")
          ∷ [])
        t
  t ←
      update_row_definition 9 3 3
        (("num_sample_worker", int 2)
          ∷ ("num_train_worker", int 3)
          ∷ ("BOOL_pipeline", text "pipeline")
          ∷ [])
        t
  t ←
      update_row_definition 10 3 3
        (("num_sample_worker", int 2)
          ∷ ("num_train_worker", int 4)
          ∷ ("BOOL_pipeline", text "pipeline")
          ∷ [])
        t
  t ←
      update_row_definition 11 3 3
        (("num_sample_worker", int 2)
          ∷ ("num_train_worker", int 5)
          ∷ ("BOOL_pipeline", text "pipeline")
          ∷ [])
        t
  t ←
      update_row_definition 12 3 3
        (("num_sample_worker", int 2)
          ∷ ("num_train_worker", int 6)
          ∷ ("BOOL_pipeline", text "pipeline")
          ∷ [])
        t
  t ←
      update_row_definition 13 3 3
        (("num_sample_worker", int 3)
          ∷ ("num_train_worker", int 1)
          ∷ ("BOOL_pipeline", text "pipeline")
          ∷ [])
        t
  t ←
      update_row_definition 14 3 3
        (("num_sample_worker", int 3)
          ∷ ("num_train_worker", int 2)
          ∷ ("BOOL_pipeline", text "pipeline")
          ∷ [])
        t
  t ←
      update_row_definition 15 3 3
        (("num_sample_worker", int 3)
          ∷ ("num_train_worker", int 3)
          ∷ ("BOOL_pipeline", text "pipeline")
          ∷ [])
        t
  t ←
      update_row_definition 16 3 3
        (("num_sample_worker", int 3)
          ∷ ("num_train_worker", int 4)
          ∷ ("BOOL_pipeline", text "pipeline")
          ∷ [])
        t
  t ←
      update_row_definition 17 3 3
        (("num_sample_worker", int 3)
          ∷ ("num_train_worker", int 5)
          ∷ ("BOOL_pipeline", text "pipeline")
          ∷ [])
        t
  create t

pinsage_scalability_configs : Result ConfigList
unfolding config_list multi_combo_multi_override_list override select
pinsage_scalability_configs = do
  let c = config_list "Samgraph PinSAGE scalability test"
  c ← select "app" (among (app pinsage ∷ [])) c
  c ← select "dataset" (among (wide papers100m ∷ [])) c
  let c = override "sample_type" (text "random_walk" ∷ []) c
  let c = override "num_epoch" (int 10 ∷ []) c
  let c = override "omp-thread-num" (int 40 ∷ []) c
  c ←
      multi_combo_multi_override_list "and" (("app", (among (app pinsage ∷ []))) ∷ [])
        ((workers 1 1 "pipeline" 21)
          ∷ (workers 1 2 "pipeline" 21)
          ∷ (workers 1 3 "pipeline" 21)
          ∷ (workers 1 4 "pipeline" 21)
          ∷ (workers 1 5 "pipeline" 21)
          ∷ (workers 1 6 "pipeline" 21)
          ∷ (workers 1 7 "pipeline" 21)
          ∷ (workers 2 1 "pipeline" 21)
          ∷ (workers 2 2 "pipeline" 21)
          ∷ (workers 2 3 "pipeline" 21)
          ∷ (workers 2 4 "pipeline" 21)
          ∷ (workers 2 5 "pipeline" 21)
          ∷ (workers 2 6 "pipeline" 21)
          ∷ (workers 3 1 "pipeline" 21)
          ∷ (workers 3 2 "pipeline" 21)
          ∷ (workers 3 3 "pipeline" 21)
          ∷ (workers 3 4 "pipeline" 21)
          ∷ (workers 3 5 "pipeline" 21)
          ∷ (workers 1 1 "no_pipeline" 21)
          ∷ (workers 1 2 "no_pipeline" 21)
          ∷ (workers 1 3 "no_pipeline" 21)
          ∷ (workers 1 4 "no_pipeline" 21)
          ∷ (workers 1 5 "no_pipeline" 21)
          ∷ (workers 1 6 "no_pipeline" 21)
          ∷ (workers 1 7 "no_pipeline" 21)
          ∷ (workers 2 1 "no_pipeline" 21)
          ∷ (workers 2 2 "no_pipeline" 21)
          ∷ (workers 2 3 "no_pipeline" 21)
          ∷ (workers 2 4 "no_pipeline" 21)
          ∷ (workers 2 5 "no_pipeline" 21)
          ∷ (workers 2 6 "no_pipeline" 21)
          ∷ (workers 3 1 "no_pipeline" 21)
          ∷ (workers 3 2 "no_pipeline" 21)
          ∷ (workers 3 3 "no_pipeline" 21)
          ∷ (workers 3 4 "no_pipeline" 21)
          ∷ (workers 3 5 "no_pipeline" 21)
          ∷ [])
        c
  ok c

unfoldable pub pinsage_scalability_test : Test
unfolding pinsage_scalability_table pinsage_scalability_configs
pinsage_scalability_test = record {
  table = pinsage_scalability_table;
  configs = pinsage_scalability_configs;
}
