-- ===== src/AutoRunner/Testing.antt =====
-- What a function `*_test` of the scripts of example/auto_runner sets up.
use fgnn_artifacts.Prelude.{ℕ, String, Bool, false, [], ◌∷◌, Result, ok, raise}
use fgnn_artifacts.Prelude.Dict.{Dict}
use fgnn_artifacts.Runner.Value.{Value, int, text, hundredths}
use fgnn_artifacts.Runner.LogTable.{LogTable}
use fgnn_artifacts.Runner.ConfigList.{ConfigList}
use fgnn_artifacts.Runner.Pipeline.{is_ready}

-- The dicts that run_samgraph.py gives to multi_combo_multi_override_list.
abbrev pub workers : ℕ → ℕ → String → ℕ → Dict Value
workers samplers trainers pipeline percentage =
    ("num_sample_worker", int samplers)
    ∷ ("num_train_worker", int trainers)
    ∷ ("BOOL_pipeline", text pipeline)
    ∷ ("cache_percentage", hundredths percentage)
    ∷ []

pub record Test : Type 0 where
  pub table : Result LogTable
  pub configs : Result ConfigList

-- The table and the list can be built, and each row definition of the table matches one
-- configuration.
unfoldable pub test_is_ready : Test → Bool
unfolding is_ready
test_is_ready test = elim test.table [
  | raise _ ↦ false
  | ok table ↦ elim test.configs [ raise _ ↦ false | ok configs ↦ is_ready table configs ]
]
