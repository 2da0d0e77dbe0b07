-- ===== src/Workers/Barriers/Failures.antt =====
-- example/samgraph/multi_gpu/train_gcn.py: when a process uses a variable that has no value yet.
use native.Mathlib.Nat.{div-add-mod'}
use fgnn_artifacts.Prelude.{
  ℕ, zero, suc, ◌+◌, ◌*◌, ◌/◌, ◌%◌, ◌<◌, ◌≡◌, refl, Bool, true, false, ◌||◌, List, [], ◌∷◌, ◌++◌,
  length, replicate, arith,
}
use fgnn_artifacts.Workers.{sample_steps, need_steps, range_from, train_rounds}
use fgnn_artifacts.Workers.Shares.{
  num_rounds, num_rounds_lem, train_rounds_lem, length-train_rounds,
}
use fgnn_artifacts.Workers.Barriers.{
  Event, wait, sample, extract, batch, fail, step_events, sampler_epoch, trainer_epoch, epochs,
  process, report, run_sample, run_train,
}
use fgnn_artifacts.Workers.Barriers.Stages.{waits, waits-run_sample, waits-run_train}

-- A process fails somewhere.
unfoldable pub fails : List Event → Bool
fails [] = false
fails (fail ∷ es) = true
fails (wait ∷ es) = fails es
fails (sample e ∷ es) = fails es
fails (extract e n ∷ es) = fails es
fails (batch e s ∷ es) = fails es

fails-append : (xs ys : List Event) → fails (xs ++ ys) ≡ (fails xs || fails ys)
unfolding fails
fails-append [] ys = refl
fails-append (fail ∷ xs) ys = refl
fails-append (wait ∷ xs) ys = fails-append xs ys
fails-append (sample e ∷ xs) ys = fails-append xs ys
fails-append (extract e n ∷ xs) ys = fails-append xs ys
fails-append (batch e s ∷ xs) ys = fails-append xs ys

fails-samples : (steps e : ℕ) → fails (replicate steps (sample e)) ≡ false
unfolding fails
fails-samples zero e = refl
fails-samples (suc steps) e = fails-samples steps e

fails-sampler_epoch :
    (pipeline : Bool) (steps e : ℕ) → fails (sampler_epoch pipeline steps e) ≡ false
unfolding sampler_epoch fails
fails-sampler_epoch true steps e =
    ground (arith, fails-append (replicate steps (sample e)) (wait ∷ []), fails-samples steps e)
fails-sampler_epoch false steps e =
    ground
      (arith, fails-append (replicate steps (sample e)) (wait ∷ wait ∷ []), fails-samples steps e)

-- Behind a round with a batch no round fails.
fails-steps_bound :
    (ahead : Bool) (num_step e : ℕ) (steps : List ℕ)
    → fails (step_events ahead num_step e true steps) ≡ false
unfolding fails step_events
fails-steps_bound ahead num_step e [] = refl
fails-steps_bound ahead num_step e (s ∷ steps) =
    ground (arith, fails-steps_bound ahead num_step e steps)

-- What is known of the first round decides about all.
fails-steps :
    (ahead : Bool) (num_step e first rounds step : ℕ)
    → first < num_step
    → fails (step_events ahead num_step e false (range_from rounds first step)) ≡ false
unfolding fails step_events range_from
fails-steps ahead num_step e first zero step lt = refl
fails-steps ahead num_step e first (suc rounds) step lt =
    ground (arith, lt, fails-steps_bound ahead num_step e (range_from rounds (first + step) step))

fails-trainer_epoch :
    (ahead : Bool) (need num_step w j e : ℕ)
    → j < suc w
    → j < num_step
    → fails (trainer_epoch ahead need num_step (train_rounds (suc w) num_step j) e) ≡ false
unfolding trainer_epoch fails
fails-trainer_epoch ahead need num_step w j e lt some_step =
    let rounds = train_rounds (suc w) num_step j in
    let good : fails (step_events ahead num_step e false rounds) ≡ false =
      rw (train_rounds_lem w num_step j lt) (fails-steps ahead num_step e j _ (suc w) some_step) in
    ground (arith, fails-append (step_events ahead num_step e false rounds) (wait ∷ []), good)

fails-epochs :
    (body : ℕ → List Event)
    → ((e : ℕ) → fails (body e) ≡ false)
    → (rounds e : ℕ) → fails (epochs body rounds e) ≡ false
unfolding epochs fails
fails-epochs body h zero e = refl
fails-epochs body h (suc rounds) e = ground (
  arith,
  fails-append (body e) (epochs body rounds (suc e)),
  h e,
  fails-epochs body h rounds (suc e),
)

fails-process :
    (body : ℕ → List Event) (num_epoch : ℕ) (end : List Event)
    → ((e : ℕ) → fails (body e) ≡ false)
    → fails end ≡ false
    → fails (process body num_epoch end) ≡ false
unfolding process fails
fails-process body num_epoch end h last =
    ground
      (arith, fails-append (epochs body num_epoch 0) end, fails-epochs body h num_epoch 0, last)

-- Where there is a step, there is a round.
some_round : (w num_step : ℕ) → 0 < num_step → 0 < num_rounds (suc w) num_step
some_round w num_step h =
    let all : num_step / suc w * suc w + num_step % suc w ≡ num_step =
      div-add-mod' num_step (suc w) in
    rw (num_rounds_lem w num_step) (ground (arith, all, h))

module _ (pipeline single_gpu : Bool) (num_epoch num_step : ℕ) (some_epoch : 0 < num_epoch) where
  pub fails-run_sample :
      (samplers i : ℕ)
      → 0 < sample_steps samplers num_step 0
      → fails (run_sample pipeline samplers num_epoch num_step i) ≡ false
  unfolding run_sample fails report
  fails-run_sample samplers zero some_step =
      fails-process _ num_epoch _ (fails-sampler_epoch pipeline _)
        (ground (arith, some_epoch, some_step))
  fails-run_sample samplers (suc i) some_step =
      fails-process _ num_epoch _ (fails-sampler_epoch pipeline _) (ground arith)

  pub fails-run_train :
      (trainers j : ℕ)
      → j < trainers
      → j < num_step
      → fails (run_train pipeline single_gpu trainers num_epoch num_step j) ≡ false
  unfolding run_train fails report
  fails-run_train zero j lt some_step = absurd (omega arith)
  fails-run_train (suc w) j lt some_step =
      let rounds = length-train_rounds (suc w) num_step j lt in
      let more = some_round w num_step (omega (arith, some_step)) in
      fails-process
        (trainer_epoch (pipeline || single_gpu) (need_steps (suc w) num_step j) num_step
          (train_rounds (suc w) num_step j))
        num_epoch (wait ∷ wait ∷ report j num_epoch (length (train_rounds (suc w) num_step j)))
        (λ e. fails-trainer_epoch (pipeline || single_gpu) _ num_step w j e lt some_step)
        (ground (arith, some_epoch, rounds, more))

  -- Where there is an epoch, where the first process of run_sample has a step, and for a process of
  -- run_train whose number is below the numbers of processes and of steps: no process of
  -- run_sample and not this process of run_train uses a variable that has no value yet, and each of
  -- them waits at the barrier 2 * num_epoch + 4 times, with or without pipelining.
  pub same_waits :
      (samplers i trainers j : ℕ)
      → 0 < sample_steps samplers num_step 0
      → j < trainers
      → j < num_step
      → ((fails (run_sample pipeline samplers num_epoch num_step i) ≡ false)
          × (waits (run_sample pipeline samplers num_epoch num_step i) ≡ 2 * num_epoch + 4))
        × ((fails (run_train pipeline single_gpu trainers num_epoch num_step j) ≡ false)
            × (waits (run_train pipeline single_gpu trainers num_epoch num_step j)
                ≡ 2 * num_epoch + 4))
  same_waits samplers i trainers j some_step lt below = (
    (
      fails-run_sample samplers i some_step,
      waits-run_sample pipeline single_gpu num_epoch num_step samplers i,
    ),
    (
      fails-run_train trainers j lt below,
      waits-run_train pipeline single_gpu num_epoch num_step trainers j,
    ),
  )
