-- ===== src/Switcher/Complete.antt =====
-- Every batch that the samplers of example/samgraph/balance_switcher/train_pinsage.py make is trained
-- once.
use fgnn_artifacts.Prelude.{
  ℕ, zero, suc, ◌+◌, ◌≤◌, ◌<◌, ◌≡◌, refl, Bool, true, some, none, List, ◌++◌, all_of, length,
  get_elem?, get_elem?-append_at, ltb, if◌then◌else◌, inl, arith,
}
use fgnn_artifacts.Switcher.{Action, share, run_sample, run_train}
use fgnn_artifacts.Switcher.Traces.{staged, staged-process, pending-process, drains-process}
use fgnn_artifacts.Switcher.Programs.{sampler-Body, trainer-Body, sampler-Plain, trainer-Plain}
use fgnn_artifacts.Switcher.System.{System, Steps, is_finished, samplers, trainers, start}
use fgnn_artifacts.Switcher.Moves.{count, held}
use fgnn_artifacts.Switcher.Crowds.{pending_all, pending_all-append, all_of-append}
use fgnn_artifacts.Switcher.Accounts.{Accounts}
use fgnn_artifacts.Switcher.Runs.{Accounts-Steps, Accounts-finished}

-- The steps of the first i samplers together.
unfoldable pub sampled : ℕ → ℕ → ℕ → ℕ
sampled num_worker num_step zero = 0
sampled num_worker num_step (suc i) = share num_worker num_step i + sampled num_worker num_step i

module _ (pipeline : Bool) (num_worker num_epoch num_step : ℕ) where
  samplers-staged :
      (i : ℕ) → all_of (staged 0) (samplers pipeline num_worker num_epoch num_step i) ≡ true
  unfolding samplers run_sample run_train
  samplers-staged zero = refl
  samplers-staged (suc i) = ground (
    arith,
    staged-process (sampler-Body pipeline i (share num_worker num_step i)) num_epoch
        (sampler-Plain i num_epoch (share num_worker num_step i)),
    staged-process (trainer-Body (some i)) num_epoch trainer-Plain,
    samplers-staged i,
  )

  samplers-pending :
      (i e : ℕ)
      → pending_all e (samplers pipeline num_worker num_epoch num_step i)
        ≡ (if ltb e num_epoch then sampled num_worker num_step i else 0)
  unfolding samplers run_sample run_train pending_all sampled
  samplers-pending zero e = ground arith
  samplers-pending (suc i) e = ground (
    arith,
    pending-process (sampler-Body pipeline i (share num_worker num_step i)) num_epoch e
        (sampler-Plain i num_epoch (share num_worker num_step i)),
    pending-process (trainer-Body (some i)) num_epoch e trainer-Plain,
    samplers-pending i e,
  )

trainers-staged : (num_epoch j : ℕ) → all_of (staged 0) (trainers num_epoch j) ≡ true
unfolding trainers run_train
trainers-staged num_epoch zero = refl
trainers-staged num_epoch (suc j) =
    ground (
      arith,
      staged-process (trainer-Body none) num_epoch trainer-Plain,
      trainers-staged num_epoch j,
    )

trainers-pending : (num_epoch j e : ℕ) → pending_all e (trainers num_epoch j) ≡ 0
unfolding trainers run_train pending_all
trainers-pending num_epoch zero e = refl
trainers-pending num_epoch (suc j) e = ground (
  arith,
  pending-process (trainer-Body none) num_epoch e trainer-Plain,
  trainers-pending num_epoch j e,
)

first_trainer :
    (num_epoch j : ℕ) (ps : List (List Action))
    → 0 < j
    → get_elem? (ps ++ trainers num_epoch j) (length ps) ≡ some (run_train none num_epoch)
unfolding trainers
first_trainer num_epoch zero ps h = absurd (omega arith)
first_trainer num_epoch (suc j) ps h =
    get_elem?-append_at (trainers num_epoch j) (run_train none num_epoch) ps

module _ (pipeline : Bool) (num_sampler num_trainer num_epoch num_step : ℕ) where
  abbrev amount : ℕ → ℕ
  amount e = if ltb e num_epoch then sampled num_sampler num_step num_sampler else 0

  abbrev crowd : List (List Action)
  crowd = samplers pipeline num_sampler num_epoch num_step num_sampler

  Accounts-start :
      0 < num_trainer
      → Accounts amount num_epoch
          (length crowd)
          0
          (start pipeline num_sampler num_trainer num_epoch num_step)
  unfolding start held count run_train
  Accounts-start some_trainer = record {
    in_time =
        all_of-append (staged 0) crowd (trainers num_epoch num_trainer)
          (samplers-staged pipeline num_sampler num_epoch num_step num_sampler)
          (trainers-staged num_epoch num_trainer);
    balance = λ e. ground (
      arith,
      pending_all-append e crowd (trainers num_epoch num_trainer),
      samplers-pending pipeline num_sampler num_epoch num_step num_sampler e,
      trainers-pending num_epoch num_trainer e,
    );
    early = λ lt. refl;
    program = run_train none num_epoch;
    at_k = first_trainer num_epoch num_trainer crowd some_trainer;
    helps =
        λ e lt. inl (ground (arith, drains-process (trainer-Body none) num_epoch e trainer-Plain));
  }

  -- Whatever order the processes run in, when all of them have ended, then for each epoch the number
  -- of batches that trainers and switchers have trained is the number of steps that the samplers
  -- made for it together, with or without pipelining, provided that there is a trainer.
  pub start_trains_all :
      (s : System) (e : ℕ)
      → 0 < num_trainer
      → Steps (start pipeline num_sampler num_trainer num_epoch num_step) s
      → is_finished s ≡ true
      → e < num_epoch
      → count e s.shared.trained ≡ sampled num_sampler num_step num_sampler
  start_trains_all s e some_trainer steps f lt =
      let trained =
        Accounts-finished amount num_epoch (length crowd) _ s e (Accounts-start some_trainer)
          (λ k late. ground arith) steps f lt in
      ground (arith, trained)

  -- In every state that the processes reach, where there is a trainer, the batches of an epoch that
  -- have been trained and the permits for the epoch that are still to be released are together at
  -- most the steps that the samplers make for it, and none where there is no such epoch. So a batch
  -- is trained only after a permit for it was released, and no more batches than permits.
  pub start_never_over :
      (s : System) (e : ℕ)
      → 0 < num_trainer
      → Steps (start pipeline num_sampler num_trainer num_epoch num_step) s
      → count e s.shared.trained + pending_all e s.processes
        ≤ (if ltb e num_epoch then sampled num_sampler num_step num_sampler else 0)
  unfolding held
  start_never_over s e some_trainer steps =
      let (n, a) =
        Accounts-Steps amount num_epoch (length crowd) _ s (Accounts-start some_trainer)
          (λ k late. ground arith) steps in
      omega (arith, a.balance e)
