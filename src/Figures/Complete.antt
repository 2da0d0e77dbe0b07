-- ===== src/Figures/Complete.antt =====
-- The scripts over exp/common/runner_helper.py return.
use fgnn_artifacts.Prelude.{
  ℕ, String, ◌≡◌, refl, Bool, true, List, [], ◌∷◌, all_of, ok, arith, length, map,
}
use fgnn_artifacts.Runner.Os.{Os}
use fgnn_artifacts.RunnerHelper.ConfigList.{ConfigList}
use fgnn_artifacts.RunnerHelper.Total.{can_form, Returns, run_in_list-total}
use fgnn_artifacts.Figures.{
  Script, table2, table6, fig10, fig11a, fig11b, fig11c, fig12, fig13, fig4a, fig4b, fig5a, fig5b,
  phases_of,
}
use fgnn_artifacts.Figures.Phases.{
  After, nothing, copy_optimal, rm_optimal, Phase, callback_of, run_phases, main,
}

unfoldable forms : Phase → Bool
unfolding can_form
forms phase = all_of can_form phase.configs

phases_of-forms :
    (script : Script) (log_dir : String) → all_of forms (phases_of script log_dir) ≡ true
unfolding forms phases_of
phases_of-forms table2 log_dir = refl
phases_of-forms table6 log_dir = refl
phases_of-forms fig10 log_dir = refl
phases_of-forms fig11a log_dir = refl
phases_of-forms fig11b log_dir = refl
phases_of-forms fig11c log_dir = refl
phases_of-forms fig12 log_dir = refl
phases_of-forms fig13 log_dir = refl
phases_of-forms fig4a log_dir = refl
phases_of-forms fig4b log_dir = refl
phases_of-forms fig5a log_dir = refl
phases_of-forms fig5b log_dir = refl

-- The lengths of the lists.
abbrev pub lengths : List ConfigList → List ℕ
lengths css = map length css

abbrev pub configs_of : Phase → ConfigList
configs_of phase = phase.configs

module _ (os : Os) where
  callback-Returns : (after : After) → Returns os (callback_of os after)
  unfolding callback_of
  callback-Returns nothing c s = (c, s, refl)
  callback-Returns copy_optimal c s = (_, _, refl)
  callback-Returns rm_optimal c s = (_, _, refl)

  run_phases-total :
      (mock durable_log : Bool) (phases : List Phase) (s : os.State)
      → all_of forms phases ≡ true
      → (css : List ConfigList) × (s' : os.State) × (run_phases os mock durable_log phases s
          ≡ ok (css, s'))
        × (lengths css ≡ lengths (map configs_of phases))
  unfolding run_phases forms
  run_phases-total mock durable_log [] s h = ([], s, refl, refl)
  run_phases-total mock durable_log (phase ∷ phases) s h =
      let (cs, s₁, here, same) =
        run_in_list-total os (callback_of os phase.after) (callback-Returns phase.after) mock
          durable_log phase.configs s (ground arith) in
      let (css, s₂, rest, same_rest) = run_phases-total mock durable_log phases s₁ (ground arith) in
      (cs ∷ css, s₂, ground (arith, here, rest), ground (arith, same, same_rest))

  -- Each of the scripts table2, table6, fig10 to fig13, fig4a, fig4b, fig5a and fig5b returns,
  -- whatever its arguments and the statuses of its commands are: no command line fails to be
  -- formed, and each list has been run to its end.
  pub main_total :
      (script : Script) (log_dir : String) (args : List String) (s : os.State)
      → (css : List ConfigList) × (s' : os.State) × (main os args (phases_of script log_dir) s
          ≡ ok (css, s'))
        × (lengths css ≡ lengths (map configs_of (phases_of script log_dir)))
  unfolding main
  main_total script log_dir args s =
      run_phases-total _ _ (phases_of script log_dir) s (phases_of-forms script log_dir)
