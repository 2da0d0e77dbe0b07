-- ===== src/Experiments/Testing.antt =====
-- The functions `*_test` of the experiment scripts exp/<name>/run.py: each creates a table, builds
-- a list of configurations, runs it and parses its logs.
use fgnn_artifacts.Prelude.{ℕ, String, Bool, false, List, [], ◌∷◌, Result, ok, raise}
use fgnn_artifacts.Prelude.Dict.{Dict}
use fgnn_artifacts.Prelude.Text.{path_join}
use fgnn_artifacts.Runner.Os.{Os, Io, pure, lift, bind}
use fgnn_artifacts.Runner.Value.{Value, text, int, hundredths}
use fgnn_artifacts.Runner.LogTable.{LogTable}
use fgnn_artifacts.Runner.ConfigList.{ConfigList}
use fgnn_artifacts.Runner.Pipeline.{experiment, is_ready}

-- The variables of a script: HERE, OUTPUT_DIR, MOCK and NUM_EPOCH.
pub record Globals : Type 0 where
  pub here : String
  pub output_dir : String
  pub mock : Bool
  pub num_epoch : ℕ

-- The dicts that fig14a, fig14b and fig15 give to multi_combo_multi_override_list.
abbrev pub workers : ℕ → ℕ → String → ℕ → Dict Value
workers samplers trainers pipeline percentage =
    ("num_sample_worker", int samplers)
    ∷ ("num_train_worker", int trainers)
    ∷ ("BOOL_pipeline", text pipeline)
    ∷ ("cache_percentage", hundredths percentage)
    ∷ []

-- What the functions differ in. The directories are relative to HERE and to OUTPUT_DIR.
pub record Test : Type 0 where
  pub table : Result LogTable
  pub configs : ℕ → Result ConfigList
  pub app_dir : String
  pub log_dir : String

module _ (os : Os) (g : Globals) where
  unfoldable pub run_test : Test → Io os (ConfigList × LogTable)
  unfolding experiment
  run_test test = bind os (lift os test.table) λ table.
      bind os (lift os (test.configs g.num_epoch)) λ configs.
        experiment os (path_join g.here test.app_dir) (path_join g.output_dir test.log_dir) g.mock
          table configs

  -- Tests one after the other.
  unfoldable pub run_tests : List Test → Io os (List (ConfigList × LogTable))
  unfolding run_test
  run_tests [] = pure os []
  run_tests (test ∷ tests) =
      bind os (run_test test)
        λ result. bind os (run_tests tests) λ results. pure os (result ∷ results)

-- The table and the list of a test can be built, and they are ready.
unfoldable pub test_is_ready : ℕ → Test → Bool
unfolding is_ready
test_is_ready num_epoch test = elim test.table [
  | raise _ ↦ false
  | ok table ↦ elim (test.configs num_epoch) [
    | raise _ ↦ false
    | ok configs ↦ is_ready table configs
  ]
]
