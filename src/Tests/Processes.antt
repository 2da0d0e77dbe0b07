-- ===== src/Tests/Processes.antt =====
-- Two processes of run_sample and three of run_train, with ten steps and two epochs.
use fgnn_artifacts.Prelude.{
  ◌&&◌, ◌%◌, ltb, ◌==◌, ◌+◌, ◌*◌, ◌≡◌, ◌<◌, refl, true, false, length, arith,
}
use fgnn_artifacts.Workers.{sample_steps, need_steps, train_rounds, batches, total}
use fgnn_artifacts.Workers.Shares.{
  num_rounds, total-sample_steps, total-need_steps, length-train_rounds, length-batches,
}
use fgnn_artifacts.Workers.Cover.{is_in, is_in-batches}
use fgnn_artifacts.Workers.Barriers.{run_sample, run_train}
use fgnn_artifacts.Workers.Barriers.Stages.{waits, staged, sampling, training, stages_lem}
use fgnn_artifacts.Workers.Barriers.Failures.{fails, same_waits}

total-sample_steps_example : total (sample_steps 3 10) 3 ≡ 10
total-sample_steps_example = total-sample_steps 3 10 (omega arith)

total-need_steps_example : total (need_steps 3 10) 3 ≡ 10
total-need_steps_example = total-need_steps 3 10 (omega arith)

length-train_rounds_example : length (train_rounds 3 10 1) ≡ num_rounds 3 10
length-train_rounds_example = length-train_rounds 3 10 1 (omega arith)

length-batches_example : length (batches 3 10 0) ≡ need_steps 3 10 0
length-batches_example = length-batches 3 10 0 (omega arith)

some_step : 0 < sample_steps 2 10 0
unfolding sample_steps
some_step = omega arith

same_waits_example :
    ((fails (run_sample false 2 2 10 0) ≡ false) × (waits (run_sample false 2 2 10 0) ≡ 2 * 2 + 4))
    × ((fails (run_train false false 3 2 10 1) ≡ false)
        × (waits (run_train false false 3 2 10 1) ≡ 2 * 2 + 4))
same_waits_example =
    same_waits false false 2 10 (omega arith) 2 0 3 1 some_step (omega arith) (omega arith)

-- A process of run_train whose number is not below the number of steps fails.
third_fails : fails (run_train false false 3 2 2 2) ≡ true
unfolding fails run_train
third_fails = refl

stages_lem_example :
    (staged (sampling false) 0 (run_sample false 2 2 10 1) ≡ true)
    × (staged training 0 (run_train false false 3 2 10 0) ≡ true)
stages_lem_example = stages_lem false false 2 10 2 1 3 0

is_in-batches_example : is_in 7 (batches 3 10 1) ≡ (ltb 7 10 && 7 % 3 == 1)
is_in-batches_example = is_in-batches 3 10 1 7 (omega arith)
