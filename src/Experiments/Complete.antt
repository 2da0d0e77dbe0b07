-- ===== src/Experiments/Complete.antt =====
-- Every test of the experiment scripts is ready.
use fgnn_artifacts.Prelude.{
  Result-cases, inl, inr, ℕ, ◌≡◌, refl, true, List, [], ◌∷◌, ok, all_of, arith, text_discrete,
}
use fgnn_artifacts.Prelude.Text.{path_join}
use fgnn_artifacts.Runner.Os.{Os, WritesAll}
use fgnn_artifacts.Runner.Value.{is_part}
use fgnn_artifacts.Runner.RunConfig.Commands.{flags_are_texts}
use fgnn_artifacts.Runner.LogTable.{LogTable}
use fgnn_artifacts.Runner.ConfigList.{ConfigList}
use fgnn_artifacts.Runner.Report.{is_filled}
use fgnn_artifacts.Runner.Pipeline.Complete.{experiment_total}
use fgnn_artifacts.Experiments.Testing.{Test, Globals, run_test, run_tests, test_is_ready}
use fgnn_artifacts.Experiments.{Script, table1, table4, table5, fig14a, fig14b, fig15, tests_of}

tests_are_ready : (script : Script) (n : ℕ) → all_of (test_is_ready n) (tests_of script) ≡ true
unfolding test_is_ready tests_of text_discrete flags_are_texts is_part
tests_are_ready table1 n = refl
tests_are_ready table4 n = refl
tests_are_ready table5 n = refl
tests_are_ready fig14a n = refl
tests_are_ready fig14b n = refl
tests_are_ready fig15 n = refl

-- The table of the test was created, and each of its cells holds a text in the table returned.
pub FillsTable : Test → ConfigList × LogTable → Type 0
FillsTable test result = (t : LogTable) × (test.table ≡ ok t) × (is_filled t result.1 ≡ true)

pub FillsTables : List Test → List (ConfigList × LogTable) → Type 0
unfolding FillsTable
FillsTables [] [] = Unit
FillsTables [] (_ ∷ _) = ⊥
FillsTables (_ ∷ _) [] = ⊥
FillsTables (test ∷ tests) (result ∷ results) = FillsTable test result × FillsTables tests results

module _ (os : Os) (writes : WritesAll os) (g : Globals) where
  run_test_total :
      (test : Test) (s : os.State)
      → test_is_ready g.num_epoch test ≡ true
      → (result : ConfigList × LogTable) × (s' : os.State) × (run_test os g test s
          ≡ ok (result, s'))
        × FillsTable test result
  unfolding run_test test_is_ready FillsTable
  run_test_total test s ready = elim (Result-cases test.table) [
    | inr (e, raised) ↦ absurd (ground arith)
    | inl (t, made) ↦ elim (Result-cases (test.configs g.num_epoch)) [
      | inr (e, raised) ↦ absurd (ground arith)
      | inl (cl, built) ↦
          let (cl', t', s', done, filled) =
            experiment_total os writes (path_join g.here test.app_dir)
              (path_join g.output_dir test.log_dir) g.mock t cl s (ground arith) in
          ((cl', t'), s', ground (arith, done), (t, made, filled))
    ]
  ]

  run_tests_total :
      (tests : List Test) (s : os.State)
      → all_of (test_is_ready g.num_epoch) tests ≡ true
      → (results : List (ConfigList × LogTable)) × (s' : os.State) × (run_tests os g tests s
          ≡ ok (results, s'))
        × FillsTables tests results
  unfolding run_tests FillsTables
  run_tests_total [] s ready = ([], s, refl, tt)
  run_tests_total (test ∷ tests) s ready =
      let (result, s₁, here, fills) = run_test_total test s (ground arith) in
      let (results, s₂, rest, fill_rest) = run_tests_total tests s₁ (ground arith) in
      (result ∷ results, s₂, ground (arith, here, rest), (fills, fill_rest))

  -- On a system where every write succeeds, each script's tests return when they are run one after
  -- the other, whatever the commands return, the logs and earlier statuses hold and the variables
  -- are: there is one result for each test, the test's table was created, and each of its cells
  -- holds a text in the table returned.
  pub script_completes :
      (script : Script) (s : os.State)
      → (results : List (ConfigList × LogTable)) × (s' : os.State) × (run_tests os g
            (tests_of script)
            s
          ≡ ok (results, s'))
        × FillsTables (tests_of script) results
  script_completes script s =
      run_tests_total (tests_of script) s (tests_are_ready script g.num_epoch)
