-- ===== src/Tests/Switching.antt =====
-- One sampler with its switcher, one trainer, one step and one epoch.
use fgnn_artifacts.Prelude.{◌<◌, ◌≤◌, ◌+◌, ltb, if◌then◌else◌, ◌≡◌, ◌⊎◌, refl, true, arith}
use fgnn_artifacts.Switcher.{share}
use fgnn_artifacts.Switcher.System.{
  System, Steps, stop, step, go, pass, start, advance, opened, is_finished,
}
use fgnn_artifacts.Switcher.Moves.{count}
use fgnn_artifacts.Switcher.Crowds.{pending_all}
use fgnn_artifacts.Switcher.Crossings.{remaining}
use fgnn_artifacts.Switcher.Alive.{steps_of}
use fgnn_artifacts.Switcher.Progress.{CanStep}
use fgnn_artifacts.Switcher.Ending.{start_ends}
use fgnn_artifacts.Switcher.Complete.{sampled, start_trains_all, start_never_over}

-- The trainer trains the batch, and the switcher finds none left.
abbrev whole_run : (s : System) × Steps (start true 1 1 1 1) s × (is_finished s ≡ true)
unfolding start advance opened is_finished
whole_run = (
  _,
  step
      (step
        (step
          (step
            (step
              (step
                (step
                  (step
                    (step
                      (step (step (step (step stop (pass refl)) (pass refl)) (go 0 refl))
                        (go 0 refl))
                      (pass refl))
                    (go 2 refl))
                  (go 2 refl))
                (go 0 refl))
              (go 0 refl))
            (go 1 refl))
          (go 1 refl))
        (pass refl))
      (pass refl),
  refl,
)

start_trains_all_example : count 0 whole_run.0.shared.trained ≡ 1
unfolding sampled share
start_trains_all_example =
    start_trains_all true 1 1 1 1 whole_run.0 0 (omega arith) whole_run.1 whole_run.2 (omega arith)

-- Three samplers leave out one of five steps.
sampled_short : sampled 3 5 3 ≡ 4
unfolding sampled share
sampled_short = refl

-- The epoch is about to be trained, and the switcher awaits the event of its sampler, which has yet
-- to sample.
abbrev training_run : (s : System) × Steps (start true 1 1 1 1) s
unfolding start advance opened
training_run = (
  _,
  step (step (step (step (step stop (pass refl)) (pass refl)) (go 0 refl)) (go 0 refl)) (pass refl),
)

some_share : 0 < share 1 1 0
unfolding share
some_share = omega arith

start_ends_example :
    (steps_of training_run.1 ≤ remaining (start true 1 1 1 1))
    × ((is_finished training_run.0 ≡ true) ⊎ CanStep training_run.0)
start_ends_example =
    start_ends true 1 1 1 1 (omega arith) some_share training_run.0 (omega arith) training_run.1

start_never_over_example :
    count 0 training_run.0.shared.trained + pending_all 0 training_run.0.processes
    ≤ (if ltb 0 1 then sampled 1 1 1 else 0)
start_never_over_example =
    start_never_over true 1 1 1 1 training_run.0 0 (omega arith) training_run.1
