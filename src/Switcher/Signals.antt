-- ===== src/Switcher/Signals.antt =====
-- The programs of run_sample and run_train of example/samgraph/balance_switcher/train_pinsage.py wait
-- equally often, a sampler sets its event in each epoch that is trained, and switchers await events
-- only then.
use fgnn_artifacts.Prelude.{
  ℕ, zero, suc, ◌+◌, ◌*◌, ◌<◌, ◌≡◌, refl, Bool, true, Option, none, some, List, [], ◌∷◌, ◌++◌,
  append_assoc, arith,
}
use fgnn_artifacts.Switcher.{
  Action, wait, share, sampler_epoch, trainer_epoch, epochs, process, report, run_sample, run_train,
}
use fgnn_artifacts.Switcher.System.{is_over}
use fgnn_artifacts.Switcher.Traces.{waits, Body, waits-append}
use fgnn_artifacts.Switcher.Programs.{sampler-Body, trainer-Body}
use fgnn_artifacts.Switcher.Calls.{
  is_training, is_training-odd, heeds, signals, heeds-sampler, signals-sampler,
}

module _ {body : ℕ → List Action} {amount turns : ℕ} (b : Body body amount turns) where
  waits-epochs : (rounds e : ℕ) → waits (epochs body rounds e) ≡ 2 * rounds
  unfolding epochs waits
  waits-epochs zero e = refl
  waits-epochs (suc rounds) e = omega (
    arith,
    waits-append (body e) (epochs body rounds (suc e)),
    b.two e,
    waits-epochs rounds (suc e),
  )

  waits-process : (num_epoch : ℕ) → waits (process body num_epoch (wait ∷ [])) ≡ 3 + 2 * num_epoch
  unfolding process waits
  waits-process num_epoch =
      ground (arith, waits-append (epochs body num_epoch 0) (wait ∷ []), waits-epochs num_epoch 0)

heeds-trainer :
    (switcher : Option ℕ) (m e : ℕ) (q : List Action)
    → ((i : ℕ) → switcher ≡ some i → i < m)
    → heeds m (2 + 2 * e) (trainer_epoch switcher e ++ q) ≡ heeds m (4 + 2 * e) q
unfolding trainer_epoch heeds waits
heeds-trainer none m e q h = ground arith
heeds-trainer (some i) m e q h = ground (arith, h i refl, is_training-odd e)

-- What each round keeps, a whole process keeps.
module _ (m : ℕ) (body : ℕ → List Action)
    (round : (e : ℕ) (q : List Action)
      → heeds m (2 + 2 * e) (body e ++ q) ≡ heeds m (4 + 2 * e) q) where
  heeds-epochs : (rounds e : ℕ) → heeds m (2 + 2 * e) (epochs body rounds e ++ (wait ∷ [])) ≡ true
  unfolding epochs heeds
  heeds-epochs zero e = refl
  heeds-epochs (suc rounds) e =
      let next : 4 + 2 * e ≡ 2 + 2 * suc e = omega arith in
      rw
        (
          append_assoc (body e) (epochs body rounds (suc e)) (wait ∷ []),
          round e (epochs body rounds (suc e) ++ (wait ∷ [])),
          next,
        )
        (heeds-epochs rounds (suc e))

  heeds-process : (num_epoch : ℕ) → heeds m 0 (process body num_epoch (wait ∷ [])) ≡ true
  unfolding process heeds
  heeds-process num_epoch = heeds-epochs num_epoch 0

module _ (i : ℕ) (body : ℕ → List Action)
    (round : (e : ℕ) (q : List Action)
      → signals i (2 + 2 * e) (body e ++ q) ≡ signals i (4 + 2 * e) q) where
  signals-epochs :
      (rounds e : ℕ) → signals i (2 + 2 * e) (epochs body rounds e ++ (wait ∷ [])) ≡ true
  unfolding epochs signals is_over
  signals-epochs zero e = ground (arith, is_training-odd e)
  signals-epochs (suc rounds) e =
      let next : 4 + 2 * e ≡ 2 + 2 * suc e = omega arith in
      rw
        (
          append_assoc (body e) (epochs body rounds (suc e)) (wait ∷ []),
          round e (epochs body rounds (suc e) ++ (wait ∷ [])),
          next,
        )
        (signals-epochs rounds (suc e))

  signals-process : (num_epoch : ℕ) → signals i 0 (process body num_epoch (wait ∷ [])) ≡ true
  unfolding process signals is_training
  signals-process num_epoch = signals-epochs num_epoch 0

-- With an epoch, and a step of the first sampler, the numbers of both are known in the end.
module _ (num_epoch steps i : ℕ) where
  abbrev pub Reports : Type 0
  Reports = (0 < num_epoch) × (i ≡ 0 → 0 < steps)

  report_lem : Reports → report i num_epoch steps ≡ []
  unfolding report
  report_lem (some_epoch, some_step) = ground (arith, some_epoch, some_step)

module _ (pipeline : Bool) (num_worker num_epoch num_step i : ℕ)
    (r : Reports num_epoch (share num_worker num_step i) i) where
  run_sample_lem :
      run_sample pipeline num_worker num_epoch num_step i
      ≡ process (sampler_epoch pipeline i (share num_worker num_step i)) num_epoch (wait ∷ [])
  unfolding run_sample
  run_sample_lem = rw (report_lem num_epoch (share num_worker num_step i) i r) refl

  pub waits-run_sample :
      waits (run_sample pipeline num_worker num_epoch num_step i) ≡ 3 + 2 * num_epoch
  waits-run_sample =
      rw run_sample_lem
        (waits-process (sampler-Body pipeline i (share num_worker num_step i)) num_epoch)

  pub heeds-run_sample :
      (m : ℕ) → heeds m 0 (run_sample pipeline num_worker num_epoch num_step i) ≡ true
  heeds-run_sample m = rw run_sample_lem (
      heeds-process m (sampler_epoch pipeline i (share num_worker num_step i))
        (heeds-sampler pipeline m i (share num_worker num_step i)) num_epoch)

  pub signals-run_sample : signals i 0 (run_sample pipeline num_worker num_epoch num_step i) ≡ true
  signals-run_sample = rw run_sample_lem (
      signals-process i (sampler_epoch pipeline i (share num_worker num_step i))
        (signals-sampler pipeline i (share num_worker num_step i)) num_epoch)

pub waits-run_train :
    (switcher : Option ℕ) (num_epoch : ℕ) → waits (run_train switcher num_epoch) ≡ 3 + 2 * num_epoch
unfolding run_train
waits-run_train switcher num_epoch = waits-process (trainer-Body switcher) num_epoch

pub heeds-run_train :
    (switcher : Option ℕ) (m num_epoch : ℕ)
    → ((i : ℕ) → switcher ≡ some i → i < m)
    → heeds m 0 (run_train switcher num_epoch) ≡ true
unfolding run_train
heeds-run_train switcher m num_epoch h =
    heeds-process m (trainer_epoch switcher) (λ e q. heeds-trainer switcher m e q h) num_epoch
