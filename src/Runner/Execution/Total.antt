-- ===== src/Runner/Execution/Total.antt =====
-- A run of a list whose command lines can be formed raises nothing but an OSError, keeps the
-- options of every configuration and names its log after its position.
use fgnn_artifacts.Prelude.{
  ℕ, suc, String, ◌<>◌, ◌≡◌, refl, ap, ◌∙◌, Bool, true, false, none, some, List, [], ◌∷◌, all_of,
  ok, is_ok-eq, arith, ◌⊎◌, inl, inr,
}
use fgnn_artifacts.Prelude.Dict.{Dict}
use fgnn_artifacts.Runner.Os.{Os, Io, WritesAll}
use fgnn_artifacts.Runner.Value.{Value, RunStatus, run_ok, not_ok}
use fgnn_artifacts.Runner.RunConfig
use fgnn_artifacts.Runner.RunConfig.{RunConfig, form_cmd, std_out_path}
use fgnn_artifacts.Runner.RunConfig.Parsing.{Core}
use fgnn_artifacts.Runner.Report.Cores.{cores}
use fgnn_artifacts.Runner.RunConfig.Commands.{can_form, form_cmd-is_ok, form_cmd_keeps}
use fgnn_artifacts.Runner.ConfigList.{ConfigList, with_list}
use fgnn_artifacts.Runner.Execution.Options.{options_of, options_of-load_run_status}
use fgnn_artifacts.Runner.Execution.{
  after_run, run_one, run_all, run, output, print_lines, unlines, book_path, book_lines,
  status_path, status_lines, write_configs_book, write_run_status, load_run_status,
}

status_cases : (st : RunStatus) → (st ≡ run_ok) ⊎ (st ≡ not_ok)
status_cases run_ok = inl refl
status_cases not_ok = inr refl

-- What a list with these options is, in its options and its logs, after a run.
unfoldable pub planned : String → ℕ → List (Dict Value) → List Core
planned logdir i [] = []
planned logdir i (d ∷ ds) =
    (record { configs = d; log = some (std_out_path logdir i) }) ∷ planned logdir (suc i) ds

-- What a configuration is after its turn: the same options, and a log named after its position.
abbrev pub Ran : String → ℕ → RunConfig → RunConfig → Type 0
Ran logdir i c c' = (c'.configs ≡ c.configs) × (c'.std_out_log ≡ some (std_out_path logdir i))

after_run-Ran :
    (logdir : String) (i ret : ℕ) (c c' : RunConfig)
    → Ran logdir i c c'
    → Ran logdir i c (after_run (ret, record c' { run_idx = some i }))
after_run-Ran logdir i ret c c' (same, logged) = (ground (arith, same), ground (arith, logged))

module _ (os : Os) (appdir logdir : String) where
  run-formed :
      (mock : Bool) (i : ℕ) (c : RunConfig) (s : os.State) (cmd : String) (c' : RunConfig)
      → form_cmd i appdir logdir true c ≡ ok (cmd, c')
      → (ret : ℕ) × (s' : os.State) × (RunConfig.run os i appdir logdir mock true none c s
          ≡ ok ((ret, record c' { run_idx = some i }), s'))
  unfolding RunConfig.run
  run-formed true i c s cmd c' formed = (0, os.print cmd s, ground (arith, formed))
  run-formed false i c s cmd c' formed =
      let done = os.system cmd (os.system ("mkdir -p " <> logdir) s).1 in
      (done.0, done.1, ground (arith, formed))

  module _ (mock : Bool) where
    abbrev turn : ℕ → RunConfig → Io os RunConfig
    turn = run_one os appdir logdir mock true none

    run_one-ok :
        (i : ℕ) (c : RunConfig) (s : os.State)
        → can_form c.configs ≡ true
        → (c' : RunConfig) × (s' : os.State) × (turn i c s ≡ ok (c', s')) × Ran logdir i c c'
    unfolding run_one
    run_one-ok i c s can =
        let ((cmd, c'), formed) =
          is_ok-eq (form_cmd i appdir logdir true c) (form_cmd-is_ok i appdir logdir true c can) in
        let (same, logged, _) = form_cmd_keeps i appdir logdir true c cmd c' formed in
        elim (status_cases c.status) [
          | inl done ↦ (c', s, ground (arith, done, formed), (same, logged))
          | inr todo ↦
              let (ret, s', ran) = run-formed mock i c s cmd c' formed in
              (
                after_run (ret, record c' { run_idx = some i }),
                s',
                ground (arith, todo, ran),
                after_run-Ran logdir i ret c c' (same, logged),
              )
        ]

    run_all-ok :
        (i : ℕ) (cs : List RunConfig) (s : os.State)
        → all_of can_form (options_of cs) ≡ true
        → (cs' : List RunConfig) × (s' : os.State) × (run_all os appdir logdir mock true none i cs s
            ≡ ok (cs', s'))
          × (cores cs' ≡ planned logdir i (options_of cs))
    unfolding run_all planned
    run_all-ok i [] s can = ([], s, refl, refl)
    run_all-ok i (c ∷ cs) s can =
        let (c', s', here, (same, logged)) = run_one-ok i c s (ground arith) in
        let (cs', s'', rest, all_ran) = run_all-ok (suc i) cs s' (ground arith) in
        (c' ∷ cs', s'', ground (arith, here, rest), ground (arith, all_ran))

module _ (os : Os) (writes : WritesAll os) where
  output-ok :
      (mock : Bool) (logdir path : String) (lines : List String) (s : os.State)
      → (s' : os.State) × (output os mock logdir path lines s ≡ ok (tt, s'))
  unfolding output
  output-ok true logdir path lines s = (print_lines os lines s, refl)
  output-ok false logdir path lines s =
      let (s', written) = writes path (unlines lines) (os.system ("mkdir -p " <> logdir) s).1 in
      (s', ground (arith, written))

  -- On a system where every write succeeds, a run with log files and without a callback of a list
  -- whose command lines can all be formed returns, whatever the commands return and the file of
  -- earlier statuses holds. It keeps the options of each configuration, and each configuration has
  -- the log file that is named after its position, also one that succeeded before.
  pub run_total :
      (appdir logdir : String) (mock : Bool) (cl : ConfigList) (s : os.State)
      → all_of can_form (options_of cl.conf_list) ≡ true
      → (cl' : ConfigList) × (s' : os.State) × (run os appdir logdir mock true none cl s
          ≡ ok (cl', s'))
        × (cores cl'.conf_list ≡ planned logdir 0 (options_of cl.conf_list))
  unfolding run write_configs_book write_run_status
  run_total appdir logdir mock cl s can =
      let (s₁, booked) =
        output-ok mock logdir (book_path logdir)
          (("Test Group: " <> cl.name) ∷ book_lines 0 cl.conf_list) s in
      let loaded = (load_run_status os logdir cl s₁).conf_list in
      let same : options_of loaded ≡ options_of cl.conf_list =
        options_of-load_run_status os logdir cl s₁ in
      let (cs, s₂, ran, named) = run_all-ok os appdir logdir mock 0 loaded s₁ (rw same can) in
      let (s₃, told) = output-ok mock logdir (status_path logdir) (status_lines 0 cs) s₂ in
      (with_list cl cs, s₃, ground (arith, booked, ran, told), named ∙ ap (planned logdir 0) same)
