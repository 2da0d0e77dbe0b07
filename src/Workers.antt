-- ===== src/Workers.antt =====
-- example/samgraph/multi_gpu/train_gcn.py: how many of an epoch's steps each process does.
-- `int(a / b)` of the source is the quotient `a / b` here; the two agree as long as `a` is below
-- 2 ^ 52, since the float is then less than 1 / b away from the fraction.
pub mod Shares
pub mod Cover
pub mod Barriers
use fgnn_artifacts.Prelude.{
  ℕ, zero, suc, ◌+◌, ◌-◌, ◌*◌, ◌/◌, ◌%◌, List, [], ◌∷◌, ◌==◌, ltb, if◌then◌else◌, retain,
}

-- The steps of a process of run_sample.
unfoldable pub sample_steps : ℕ → ℕ → ℕ → ℕ
sample_steps num_worker num_step worker_id =
    if worker_id == num_worker - 1
    then num_step - num_step / num_worker * worker_id
    else num_step / num_worker

-- `need_steps` of run_train, which a process gives to `extract_start`.
unfoldable pub need_steps : ℕ → ℕ → ℕ → ℕ
need_steps num_worker num_step worker_id =
    if ltb worker_id (num_step % num_worker)
    then num_step / num_worker + 1
    else num_step / num_worker

unfoldable pub align_up_step : ℕ → ℕ → ℕ
align_up_step num_worker num_step = (num_step + num_worker - 1) / num_worker * num_worker

-- `range(first, last, step)`, from its first number and its length.
unfoldable pub range_from : ℕ → ℕ → ℕ → List ℕ
range_from zero first step = []
range_from (suc rounds) first step = first ∷ range_from rounds (first + step) step

unfoldable pub range : ℕ → ℕ → ℕ → List ℕ
unfolding range_from
range first last step = range_from ((last - first + (step - 1)) / step) first step

-- The rounds of a process of run_train in an epoch.
unfoldable pub train_rounds : ℕ → ℕ → ℕ → List ℕ
unfolding range align_up_step
train_rounds num_worker num_step worker_id =
    range worker_id (align_up_step num_worker num_step) num_worker

-- The rounds in which it gets a batch: `if step < num_step`.
unfoldable pub batches : ℕ → ℕ → ℕ → List ℕ
unfolding train_rounds
batches num_worker num_step worker_id =
    retain (λ step. ltb step num_step) (train_rounds num_worker num_step worker_id)

-- The sum over the processes of a kind.
unfoldable pub total : (ℕ → ℕ) → ℕ → ℕ
total share zero = 0
total share (suc workers) = total share workers + share workers
