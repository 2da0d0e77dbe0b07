-- ===== src/Experiments/Fig15/Tables.antt =====
-- exp/fig15/logtable_def.py. A number such as 0.2 is `hundredths 20`.
use fgnn_artifacts.Prelude.{[], ◌∷◌, Result, ◌>>=◌}
use fgnn_artifacts.Runner.Value.{text, int}
use fgnn_artifacts.Runner.LogTable.{
  LogTable, log_table, update_row_definition, update_col_definition, create,
}

unfoldable pub get_fgnn_logtable : Result LogTable
unfolding log_table update_col_definition update_row_definition create
get_fgnn_logtable = do
  let t = log_table 18 4 []
  t ← update_col_definition 0 "epoch_time:sample_total" t
  t ← update_col_definition 1 "epoch_time:copy_time" t
  t ← update_col_definition 2 "epoch_time:train_total" t
  t ← update_col_definition 3 "pipeline_train_epoch_time" t
  t ←
      update_row_definition 0 0 2
        (("num_sample_worker", int 1)
          ∷ ("num_train_worker", int 1)
          ∷ ("BOOL_pipeline", text "no_pipeline")
          ∷ [])
        t
  t ←
      update_row_definition 1 0 2
        (("num_sample_worker", int 1)
          ∷ ("num_train_worker", int 2)
          ∷ ("BOOL_pipeline", text "no_pipeline")
          ∷ [])
        t
  t ←
      update_row_definition 2 0 2
        (("num_sample_worker", int 1)
          ∷ ("num_train_worker", int 3)
          ∷ ("BOOL_pipeline", text "no_pipeline")
          ∷ [])
        t
  t ←
      update_row_definition 3 0 2
        (("num_sample_worker", int 1)
          ∷ ("num_train_worker", int 4)
          ∷ ("BOOL_pipeline", text "no_pipeline")
          ∷ [])
        t
  t ←
      update_row_definition 4 0 2
        (("num_sample_worker", int 1)
          ∷ ("num_train_worker", int 5)
          ∷ ("BOOL_pipeline", text "no_pipeline")
          ∷ [])
        t
  t ←
      update_row_definition 5 0 2
        (("num_sample_worker", int 1)
          ∷ ("num_train_worker", int 6)
          ∷ ("BOOL_pipeline", text "no_pipeline")
          ∷ [])
        t
  t ←
      update_row_definition 6 0 2
        (("num_sample_worker", int 1)
          ∷ ("num_train_worker", int 7)
          ∷ ("BOOL_pipeline", text "no_pipeline")
          ∷ [])
        t
  t ←
      update_row_definition 7 0 2
        (("num_sample_worker", int 2)
          ∷ ("num_train_worker", int 1)
          ∷ ("BOOL_pipeline", text "no_pipeline")
          ∷ [])
        t
  t ←
      update_row_definition 8 0 2
        (("num_sample_worker", int 2)
          ∷ ("num_train_worker", int 2)
          ∷ ("BOOL_pipeline", text "no_pipeline")
          ∷ [])
        t
  t ←
      update_row_definition 9 0 2
        (("num_sample_worker", int 2)
          ∷ ("num_train_worker", int 3)
          ∷ ("BOOL_pipeline", text "no_pipeline")
          ∷ [])
        t
  t ←
      update_row_definition 10 0 2
        (("num_sample_worker", int 2)
          ∷ ("num_train_worker", int 4)
          ∷ ("BOOL_pipeline", text "no_pipeline")
          ∷ [])
        t
  t ←
      update_row_definition 11 0 2
        (("num_sample_worker", int 2)
          ∷ ("num_train_worker", int 5)
          ∷ ("BOOL_pipeline", text "no_pipeline")
          ∷ [])
        t
  t ←
      update_row_definition 12 0 2
        (("num_sample_worker", int 2)
          ∷ ("num_train_worker", int 6)
          ∷ ("BOOL_pipeline", text "no_pipeline")
          ∷ [])
        t
  t ←
      update_row_definition 13 0 2
        (("num_sample_worker", int 3)
          ∷ ("num_train_worker", int 1)
          ∷ ("BOOL_pipeline", text "no_pipeline")
          ∷ [])
        t
  t ←
      update_row_definition 14 0 2
        (("num_sample_worker", int 3)
          ∷ ("num_train_worker", int 2)
          ∷ ("BOOL_pipeline", text "no_pipeline")
          ∷ [])
        t
  t ←
      update_row_definition 15 0 2
        (("num_sample_worker", int 3)
          ∷ ("num_train_worker", int 3)
          ∷ ("BOOL_pipeline", text "no_pipeline")
          ∷ [])
        t
  t ←
      update_row_definition 16 0 2
        (("num_sample_worker", int 3)
          ∷ ("num_train_worker", int 4)
          ∷ ("BOOL_pipeline", text "no_pipeline")
          ∷ [])
        t
  t ←
      update_row_definition 17 0 2
        (("num_sample_worker", int 3)
          ∷ ("num_train_worker", int 5)
          ∷ ("BOOL_pipeline", text "no_pipeline")
          ∷ [])
        t
  t ←
      update_row_definition 0 3 3
        (("num_sample_worker", int 1)
          ∷ ("num_train_worker", int 1)
          ∷ ("BOOL_pipeline", text "pipeline")
          ∷ [])
        t
  t ←
      update_row_definition 1 3 3
        (("num_sample_worker", int 1)
          ∷ ("num_train_worker", int 2)
          ∷ ("BOOL_pipeline", text "pipeline")
          ∷ [])
        t
  t ←
      update_row_definition 2 3 3
        (("num_sample_worker", int 1)
          ∷ ("num_train_worker", int 3)
          ∷ ("BOOL_pipeline", text "pipeline")
          ∷ [])
        t
  t ←
      update_row_definition 3 3 3
        (("num_sample_worker", int 1)
          ∷ ("num_train_worker", int 4)
          ∷ ("BOOL_pipeline", text "pipeline")
          ∷ [])
        t
  t ←
      update_row_definition 4 3 3
        (("num_sample_worker", int 1)
          ∷ ("num_train_worker", int 5)
          ∷ ("BOOL_pipeline", text "pipeline")
          ∷ [])
        t
  t ←
      update_row_definition 5 3 3
        (("num_sample_worker", int 1)
          ∷ ("num_train_worker", int 6)
          ∷ ("BOOL_pipeline", text "pipeline")
          ∷ [])
        t
  t ←
      update_row_definition 6 3 3
        (("num_sample_worker", int 1)
          ∷ ("num_train_worker", int 7)
          ∷ ("BOOL_pipeline", text "pipeline")
          ∷ [])
        t
  t ←
      update_row_definition 7 3 3
        (("num_sample_worker", int 2)
          ∷ ("num_train_worker", int 1)
          ∷ ("BOOL_pipeline", text "pipeline")
          ∷ [])
        t
  t ←
      update_row_definition 8 3 3
        (("num_sample_worker", int 2)
          ∷ ("num_train_worker", int 2)
          ∷ ("BOOL_pipeline", text "pipeline")
          ∷ [])
        t
  t ←
      update_row_definition 9 3 3
        (("num_sample_worker", int 2)
          ∷ ("num_train_worker", int 3)
          ∷ ("BOOL_pipeline", text "pipeline")
          ∷ [])
        t
  t ←
      update_row_definition 10 3 3
        (("num_sample_worker", int 2)
          ∷ ("num_train_worker", int 4)
          ∷ ("BOOL_pipeline", text "pipeline")
          ∷ [])
        t
  t ←
      update_row_definition 11 3 3
        (("num_sample_worker", int 2)
          ∷ ("num_train_worker", int 5)
          ∷ ("BOOL_pipeline", text "pipeline")
          ∷ [])
        t
  t ←
      update_row_definition 12 3 3
        (("num_sample_worker", int 2)
          ∷ ("num_train_worker", int 6)
          ∷ ("BOOL_pipeline", text "pipeline")
          ∷ [])
        t
  t ←
      update_row_definition 13 3 3
        (("num_sample_worker", int 3)
          ∷ ("num_train_worker", int 1)
          ∷ ("BOOL_pipeline", text "pipeline")
          ∷ [])
        t
  t ←
      update_row_definition 14 3 3
        (("num_sample_worker", int 3)
          ∷ ("num_train_worker", int 2)
          ∷ ("BOOL_pipeline", text "pipeline")
          ∷ [])
        t
  t ←
      update_row_definition 15 3 3
        (("num_sample_worker", int 3)
          ∷ ("num_train_worker", int 3)
          ∷ ("BOOL_pipeline", text "pipeline")
          ∷ [])
        t
  t ←
      update_row_definition 16 3 3
        (("num_sample_worker", int 3)
          ∷ ("num_train_worker", int 4)
          ∷ ("BOOL_pipeline", text "pipeline")
          ∷ [])
        t
  t ←
      update_row_definition 17 3 3
        (("num_sample_worker", int 3)
          ∷ ("num_train_worker", int 5)
          ∷ ("BOOL_pipeline", text "pipeline")
          ∷ [])
        t
  create t
