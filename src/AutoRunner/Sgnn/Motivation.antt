-- ===== src/AutoRunner/Sgnn/Motivation.antt =====
-- motivation_test of example/auto_runner/run_sgnn.py. A number such as 0.2 is `hundredths 20`.
use fgnn_artifacts.Prelude.{[], ◌∷◌, Result, ok, ◌>>=◌}
use fgnn_artifacts.Runner.Value.{gcn, app, wide, text, int, hundredths, among, within}
use fgnn_artifacts.AutoRunner.Datasets.{papers100m}
use fgnn_artifacts.Runner.LogTable.{
  LogTable, log_table, update_row_definition, update_col_definition, create,
}
use fgnn_artifacts.Runner.ConfigList.{ConfigList, select, override, combo}
use fgnn_artifacts.AutoRunner.Common.{config_list}
use fgnn_artifacts.AutoRunner.Testing.{Test}

motivation_table : Result LogTable
unfolding log_table update_col_definition update_row_definition create
motivation_table = do
  let t = log_table 4 6 []
  t ← update_col_definition 0 "epoch_time:sample_time" t
  t ← update_col_definition 1 "epoch_time:copy_time" t
  t ← update_col_definition 2 "epoch_time:train_total" t
  t ← update_col_definition 3 "epoch_time:total" t
  t ← update_col_definition 4 "cache_percentage" t
  t ← update_col_definition 5 "cache_hit_rate" t
  t ← update_row_definition 0 0 5 (("arch", text "arch0") ∷ ("cache_percentage", int 0) ∷ []) t
  t ←
      update_row_definition 1 0 5
        (("arch", text "arch0") ∷ ("cache_percentage", hundredths 21) ∷ []) t
  t ← update_row_definition 2 0 5 (("arch", text "arch2") ∷ ("cache_percentage", int 0) ∷ []) t
  t ←
      update_row_definition 3 0 5 (("arch", text "arch2") ∷ ("cache_percentage", hundredths 7) ∷ [])
        t
  create t

motivation_configs : Result ConfigList
unfolding config_list combo override select
motivation_configs = do
  let c = config_list "SGNN motivation test"
  c ← select "app" (among (app gcn ∷ [])) c
  c ← select "dataset" (among (wide papers100m ∷ [])) c
  let c = override "num_epoch" (int 10 ∷ []) c
  let c = override "fanout" (text "5 10 15" ∷ []) c
  let c = override "BOOL_pipeline" (text "no_pipeline" ∷ []) c
  let c = override "arch" (text "arch0" ∷ text "arch2" ∷ []) c
  let c = override "cache_policy" (text "degree" ∷ []) c
  c ← combo "arch" (within "arch2") "cache_percentage" (hundredths 7 ∷ int 0 ∷ []) c
  c ← combo "arch" (within "arch0") "cache_percentage" (hundredths 21 ∷ int 0 ∷ []) c
  ok c

unfoldable pub motivation_test : Test
unfolding motivation_table motivation_configs
motivation_test = record { table = motivation_table; configs = motivation_configs }
