-- ===== src/Tests/Interleaving.antt =====
-- One process of run_sample and one of run_train, with one step and one epoch, interleaved.
use fgnn_artifacts.Prelude.{◌≤◌, ◌≡◌, refl, ◌⊎◌, true, false, [], ◌∷◌, arith}
use fgnn_artifacts.Workers.{sample_steps}
use fgnn_artifacts.Workers.Barriers.{wait, batch}
use fgnn_artifacts.Workers.Barriers.System.{
  System, Steps, stop, step, go, pass, start, is_finished, advance, release,
}
use fgnn_artifacts.Workers.Barriers.Progress.{size, CanStep, start_progress}
use fgnn_artifacts.Workers.Barriers.Order.{samples, start_order}

-- The epoch is sampled, and run_train is about to get its batch.
abbrev sampled : System
sampled = (wait ∷ wait ∷ wait ∷ []) ∷ (batch 0 0 ∷ wait ∷ wait ∷ wait ∷ []) ∷ []

sampling_first : Steps 5 (start false false 1 1 1 1) sampled
unfolding start advance release
sampling_first =
    step (step (step (step (step stop (pass refl)) (pass refl)) (go 0 refl)) (pass refl))
      (go 1 refl)

start_progress_example :
    (5 ≤ size (start false false 1 1 1 1)) × ((is_finished sampled ≡ true) ⊎ CanStep sampled)
unfolding sample_steps
start_progress_example =
    start_progress false false 1 1 1 1 (omega arith) (omega arith) (omega arith) 5 sampled
      sampling_first

start_order_example : samples 0 (wait ∷ wait ∷ wait ∷ []) ≡ false
start_order_example =
    start_order false false 1 1 1 1 5 sampled 1 0 0 0 0 (wait ∷ wait ∷ wait ∷ [])
      (wait ∷ wait ∷ wait ∷ []) sampling_first refl (omega arith) refl refl
