-- ===== src/Runner/Execution/Rerun.antt =====
-- Running a list whose configurations have all succeeded before.
use fgnn_artifacts.Prelude.{
  ℕ, suc, String, ◌≡◌, refl, Bool, true, false, List, [], ◌∷◌, all_of, none, ok, is_ok-eq, arith,
}
use fgnn_artifacts.Runner.Os.{Os}
use fgnn_artifacts.Runner.Value.{run_ok, not_ok}
use fgnn_artifacts.Runner.RunConfig.{RunConfig, form_cmd}
use fgnn_artifacts.Runner.RunConfig.Commands.{can_form, form_cmd-is_ok, form_cmd_keeps}
use fgnn_artifacts.Runner.Report.Cores.{cores}
use fgnn_artifacts.Runner.Execution.{run_one, run_all}
use fgnn_artifacts.Runner.Execution.Options.{options_of}
use fgnn_artifacts.Runner.Execution.Total.{planned}

abbrev pub succeeded : RunConfig → Bool
succeeded c = elim c.status [ run_ok ↦ true | not_ok ↦ false ]

module _ (os : Os) (appdir logdir : String) (mock : Bool) where
  -- When all configurations of a list have succeeded before and their command lines can be formed,
  -- the loop of `run`, with log files and without a callback, does nothing to the system: no
  -- command, no output. Each configuration still gets the log file of its position and keeps its
  -- options, and all of them still count as succeeded.
  pub run_all-succeeded :
      (i : ℕ) (cs : List RunConfig) (s : os.State)
      → all_of succeeded cs ≡ true
      → all_of can_form (options_of cs) ≡ true
      → (cs' : List RunConfig) × (run_all os appdir logdir mock true none i cs s ≡ ok (cs', s))
        × (cores cs' ≡ planned logdir i (options_of cs))
        × (all_of succeeded cs' ≡ true)
  unfolding run_all run_one planned
  run_all-succeeded i [] s done can = ([], refl, refl, refl)
  run_all-succeeded i (c ∷ cs) s done can =
      let ((cmd, c'), formed) =
        is_ok-eq (form_cmd i appdir logdir true c)
          (form_cmd-is_ok i appdir logdir true c (ground arith)) in
      let (same, logged, status) = form_cmd_keeps i appdir logdir true c cmd c' formed in
      let (cs', rest, named, kept) = run_all-succeeded (suc i) cs s (ground arith) (ground arith) in
      (
        c' ∷ cs',
        ground (arith, formed, rest),
        ground (arith, same, logged, named),
        ground (arith, status, kept),
      )
