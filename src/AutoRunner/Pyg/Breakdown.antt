-- ===== src/AutoRunner/Pyg/Breakdown.antt =====
-- breakdown_test of example/auto_runner/run_pyg.py. A number such as 0.2 is `hundredths 20`.
use fgnn_artifacts.Prelude.{[], ◌∷◌, Result, ok, ◌>>=◌}
use fgnn_artifacts.Runner.Value.{gcn, graphsage, app, wide, text, int, among}
use fgnn_artifacts.AutoRunner.Datasets.{products, papers100m, uk_2006_05, twitter}
use fgnn_artifacts.Runner.LogTable.{
  LogTable, log_table, update_row_definition, update_col_definition, create,
}
use fgnn_artifacts.Runner.ConfigList.{ConfigList, select, override}
use fgnn_artifacts.AutoRunner.Common.{config_list}
use fgnn_artifacts.AutoRunner.Testing.{Test}

breakdown_table : Result LogTable
unfolding log_table update_col_definition update_row_definition create
breakdown_table = do
  let t = log_table 8 4 []
  t ← update_col_definition 0 "sample_time" t
  t ← update_col_definition 1 "copy_time" t
  t ← update_col_definition 2 "train_time" t
  t ← update_col_definition 3 "epoch_time" t
  t ←
      update_row_definition 0 0 3
        (("app", app gcn)
          ∷ ("dataset", wide products)
          ∷ ("BOOL_pipelining", text "no_pipelining")
          ∷ [])
        t
  t ←
      update_row_definition 1 0 3
        (("app", app gcn)
          ∷ ("dataset", wide twitter)
          ∷ ("BOOL_pipelining", text "no_pipelining")
          ∷ [])
        t
  t ←
      update_row_definition 2 0 3
        (("app", app gcn)
          ∷ ("dataset", wide papers100m)
          ∷ ("BOOL_pipelining", text "no_pipelining")
          ∷ [])
        t
  t ←
      update_row_definition 3 0 3
        (("app", app gcn)
          ∷ ("dataset", wide uk_2006_05)
          ∷ ("BOOL_pipelining", text "no_pipelining")
          ∷ [])
        t
  t ←
      update_row_definition 4 0 3
        (("app", app graphsage)
          ∷ ("dataset", wide products)
          ∷ ("BOOL_pipelining", text "no_pipelining")
          ∷ [])
        t
  t ←
      update_row_definition 5 0 3
        (("app", app graphsage)
          ∷ ("dataset", wide twitter)
          ∷ ("BOOL_pipelining", text "no_pipelining")
          ∷ [])
        t
  t ←
      update_row_definition 6 0 3
        (("app", app graphsage)
          ∷ ("dataset", wide papers100m)
          ∷ ("BOOL_pipelining", text "no_pipelining")
          ∷ [])
        t
  t ←
      update_row_definition 7 0 3
        (("app", app graphsage)
          ∷ ("dataset", wide uk_2006_05)
          ∷ ("BOOL_pipelining", text "no_pipelining")
          ∷ [])
        t
  create t

breakdown_configs : Result ConfigList
unfolding config_list override select
breakdown_configs = do
  let c = config_list "PyG breakdown test"
  c ← select "app" (among (app gcn ∷ app graphsage ∷ [])) c
  let c = override "num_epoch" (int 10 ∷ []) c
  let c = override "BOOL_pipelining" (text "no_pipelining" ∷ []) c
  let c = override "num_sampling_worker" (int 40 ∷ []) c
  let c = override "devices" (text "0" ∷ []) c
  ok c

unfoldable pub breakdown_test : Test
unfolding breakdown_table breakdown_configs
breakdown_test = record { table = breakdown_table; configs = breakdown_configs }
