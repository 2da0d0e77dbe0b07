-- ===== src/Switcher.antt =====
-- example/samgraph/balance_switcher/train_pinsage.py: the processes of a training in which a GPU that
-- has finished sampling an epoch helps to train it.
--
-- The batches of an epoch are counted by a semaphore. A process of run_sample releases it once for
-- each of its steps, samples, and sets the event of its switcher; trainers and switchers, both run_train,
-- acquire it and train a batch, until no permit has come for 0.01 s. A barrier keeps all in step.
pub mod System
pub mod Traces
pub mod Programs
pub mod Moves
pub mod Crowds
pub mod Accounts
pub mod Runs
pub mod Complete
pub mod Calls
pub mod Signals
pub mod Crossings
pub mod Alive
pub mod Progress
pub mod Ending
use fgnn_artifacts.Prelude.{
  ℕ, zero, suc, ◌-◌, ◌*◌, ◌+◌, Bool, true, false, Option, none, some, List, [], ◌∷◌, ◌++◌,
  replicate, ◌&&◌, ◌||◌, ◌==◌, if◌then◌else◌,
}
use fgnn_artifacts.RunnerHelper.Doubles.{nearest, times, truncate}

-- In epoch e, `release e` and `drain e` are the loops' uses of the semaphore, and `sample e` is a call
-- of sample_once. `clear i`, `set i` and `await i` are calls on the event of the sampler i. At `fail`
-- Python raises since a variable has no value yet, and what follows is not reached.
pub data Action : Type 0 where
  wait : Action
  release : ℕ → Action
  sample : ℕ → Action
  drain : ℕ → Action
  clear : ℕ → Action
  set : ℕ → Action
  await : ℕ → Action
  fail : Action

-- The steps of the process worker_id of run_sample, in floating-point arithmetic:
-- `int(num_step - int(num_step / num_worker * worker_id))` for the last process and
-- `int(num_step / num_worker)` for the others.
unfoldable pub share : ℕ → ℕ → ℕ → ℕ
unfolding nearest times
share num_worker num_step worker_id =
    if suc worker_id == num_worker
    then num_step - truncate (times (nearest num_step num_worker) worker_id)
    else truncate (nearest num_step num_worker)

unfoldable pub sampler_epoch : Bool → ℕ → ℕ → ℕ → List Action
sampler_epoch pipeline i steps e =
    clear i
    ∷ (replicate steps (release e)
        ++ ((if pipeline then wait ∷ [] else [])
            ++ (replicate steps (sample e)
                ++ ((if pipeline then [] else wait ∷ []) ++ (set i ∷ wait ∷ [])))))

-- A switcher first waits for the event of its sampler.
abbrev pub own_event : Option ℕ → List Action
own_event none = []
own_event (some i) = await i ∷ []

unfoldable pub trainer_epoch : Option ℕ → ℕ → List Action
trainer_epoch switcher e = wait ∷ (own_event switcher ++ (drain e ∷ wait ∷ []))

-- `for epoch in range(num_epoch)`, by the epochs left.
unfoldable pub epochs : (ℕ → List Action) → ℕ → ℕ → List Action
epochs body zero e = []
epochs body (suc rounds) e = body e ++ epochs body rounds (suc e)

-- The waits of the start, the epochs and the end.
unfoldable pub process : (ℕ → List Action) → ℕ → List Action → List Action
unfolding epochs
process body num_epoch end = wait ∷ wait ∷ (epochs body num_epoch 0 ++ end)

-- `if worker_id == 0: sam.report_step_average(epoch - 1, step - 1)`, where `epoch` and `step` are the
-- variables of the loops.
unfoldable pub report : ℕ → ℕ → ℕ → List Action
report worker_id num_epoch num_step =
    if (worker_id == 0) && ((num_epoch == 0) || (num_step == 0)) then fail ∷ [] else []

unfoldable pub run_sample : Bool → ℕ → ℕ → ℕ → ℕ → List Action
unfolding process sampler_epoch share report
run_sample pipeline num_worker num_epoch num_step worker_id =
    process (sampler_epoch pipeline worker_id (share num_worker num_step worker_id)) num_epoch
      (report worker_id num_epoch (share num_worker num_step worker_id) ++ (wait ∷ []))

unfoldable pub run_train : Option ℕ → ℕ → List Action
unfolding process trainer_epoch
run_train switcher num_epoch = process (trainer_epoch switcher) num_epoch (wait ∷ [])
