-- ===== src/Workers/Barriers.antt =====
-- example/samgraph/multi_gpu/train_gcn.py: the order in which a process of run_sample or run_train
-- waits at the global barrier, samples and gets batches. notify_sampler_ready and
-- wait_for_sampler_ready of samgraph/torch/adapter.py wait there as well.
pub mod Stages
pub mod Failures
pub mod System
pub mod Progress
pub mod Order
use fgnn_artifacts.Prelude.{
  ℕ, zero, suc, ◌+◌, Bool, true, false, ◌||◌, ◌&&◌, List, [], ◌∷◌, ◌++◌, length, replicate, ltb,
  ◌==◌, if◌then◌else◌,
}
use fgnn_artifacts.Workers.{sample_steps, need_steps, train_rounds}

-- In epoch e, `sample e` is a call of sample_once, `extract e n` one of extract_start(n), and
-- `batch e s` one of get_next_batch in step s. At `fail` Python raises since a variable has no value
-- yet, and what follows is not reached.
pub data Event : Type 0 where
  wait : Event
  sample : ℕ → Event
  extract : ℕ → ℕ → Event
  batch : ℕ → ℕ → Event
  fail : Event

unfoldable pub sampler_epoch : Bool → ℕ → ℕ → List Event
sampler_epoch pipeline steps epoch =
    (if pipeline then wait ∷ [] else [])
    ++ (replicate steps (sample epoch) ++ ((if pipeline then [] else wait ∷ []) ++ (wait ∷ [])))

-- The calls in the rounds of an epoch. `ahead` is `pipeline or single_gpu`. A round that has no batch
-- trains with the `blocks` of an earlier round; `bound` says whether there is one. At the start of an
-- epoch there is none: the rounds of all epochs are the same, so a process whose first round has no
-- batch fails in the first epoch.
unfoldable pub step_events : Bool → ℕ → ℕ → Bool → List ℕ → List Event
step_events ahead num_step epoch bound [] = []
step_events ahead num_step epoch bound (step ∷ steps) =
    (if ltb step num_step
      then (if ahead then [] else sample epoch ∷ []) ++ (batch epoch step ∷ [])
      else (if bound then [] else fail ∷ []))
    ++ step_events ahead num_step epoch (bound || ltb step num_step) steps

unfoldable pub trainer_epoch : Bool → ℕ → ℕ → List ℕ → ℕ → List Event
unfolding step_events
trainer_epoch ahead need num_step rounds epoch =
    wait
    ∷ ((if ahead then extract epoch need ∷ [] else [])
        ++ (step_events ahead num_step epoch false rounds ++ (wait ∷ [])))

-- `for epoch in range(num_epoch)`, by the epochs left.
unfoldable pub epochs : (ℕ → List Event) → ℕ → ℕ → List Event
epochs body zero epoch = []
epochs body (suc rounds) epoch = body epoch ++ epochs body rounds (suc epoch)

-- The start of a process, its epochs and its end.
unfoldable pub process : (ℕ → List Event) → ℕ → List Event → List Event
unfolding epochs
process body num_epoch end = wait ∷ wait ∷ (epochs body num_epoch 0 ++ end)

-- `if worker_id == 0: sam.report_step_average(epoch - 1, step - 1)`, where `epoch` and `step` are the
-- variables of the loops.
unfoldable pub report : ℕ → ℕ → ℕ → List Event
report worker_id num_epoch rounds =
    if (worker_id == 0) && ((num_epoch == 0) || (rounds == 0)) then fail ∷ [] else []

-- The process `worker_id` of run_sample.
unfoldable pub run_sample : Bool → ℕ → ℕ → ℕ → ℕ → List Event
unfolding process sampler_epoch sample_steps report
run_sample pipeline num_worker num_epoch num_step worker_id =
    process (sampler_epoch pipeline (sample_steps num_worker num_step worker_id)) num_epoch (
      report worker_id num_epoch (sample_steps num_worker num_step worker_id) ++ (wait ∷ wait ∷ []))

-- The process `worker_id` of run_train.
unfoldable pub run_train : Bool → Bool → ℕ → ℕ → ℕ → ℕ → List Event
unfolding process trainer_epoch need_steps train_rounds report
run_train pipeline single_gpu num_worker num_epoch num_step worker_id =
    process
      (trainer_epoch (pipeline || single_gpu) (need_steps num_worker num_step worker_id) num_step
        (train_rounds num_worker num_step worker_id))
      num_epoch
      (wait
        ∷ wait
        ∷ report worker_id num_epoch (length (train_rounds num_worker num_step worker_id)))
