-- ===== src/Switcher/Ending.antt =====
-- The processes that the main part of example/samgraph/balance_switcher/train_pinsage.py starts all end.
use mathlib.Core.Path.{subst}
use fgnn_artifacts.Prelude.{
  ℕ, zero, suc, ◌+◌, ◌*◌, ◌≤◌, ◌<◌, ◌≡◌, refl, ap, sym, ◌⊎◌, Bool, true, none, some, List, [], ◌∷◌,
  ◌++◌, all_of, length, length-append, get_elem?, ℕ_discrete, arith,
}
use fgnn_artifacts.Switcher.{Action, share, run_sample, run_train}
use fgnn_artifacts.Switcher.Traces.{waits}
use fgnn_artifacts.Switcher.Calls.{is_training, heeds}
use fgnn_artifacts.Switcher.Signals.{
  Reports, waits-run_sample, waits-run_train, heeds-run_sample, heeds-run_train, signals-run_sample,
}
use fgnn_artifacts.Switcher.System.{System, Steps, is_finished, samplers, trainers, start}
use fgnn_artifacts.Switcher.Crowds.{all_of-append}
use fgnn_artifacts.Switcher.Crossings.{level, remaining}
use fgnn_artifacts.Switcher.Alive.{Signaler, Alive, Alive-Steps, steps_of}
use fgnn_artifacts.Switcher.Progress.{CanStep, can_step}

level-two :
    (w : ℕ) (p q : List Action) (ps : List (List Action))
    → waits p ≡ w
    → waits q ≡ w
    → level w ps ≡ true
    → level w (p ∷ q ∷ ps) ≡ true
unfolding level
level-two w p q ps hp hq h = ground (arith, hp, hq, h)

trainers-level : (num_epoch j : ℕ) → level (3 + 2 * num_epoch) (trainers num_epoch j) ≡ true
unfolding trainers level
trainers-level num_epoch zero = refl
trainers-level num_epoch (suc j) =
    ground (arith, waits-run_train none num_epoch, trainers-level num_epoch j)

trainers-heeds : (m num_epoch j : ℕ) → all_of (heeds m 0) (trainers num_epoch j) ≡ true
unfolding trainers
trainers-heeds m num_epoch zero = refl
trainers-heeds m num_epoch (suc j) = ground (
  arith,
  heeds-run_train none m num_epoch (λ i e. absurd (ground arith)),
  trainers-heeds m num_epoch j,
)

trainers-length : (num_epoch j : ℕ) → length (trainers num_epoch j) ≡ j
unfolding trainers
trainers-length num_epoch zero = refl
trainers-length num_epoch (suc j) = omega (arith, trainers-length num_epoch j)

module _ {A : Type 0} where
  get_elem?-append_left :
      (xs ys : List A) (k : ℕ) (x : A) → get_elem? xs k ≡ some x → get_elem? (xs ++ ys) k ≡ some x
  get_elem?-append_left [] ys k x h = absurd (ground arith)
  get_elem?-append_left (y ∷ xs) ys zero x h = h
  get_elem?-append_left (y ∷ xs) ys (suc k) x h = get_elem?-append_left xs ys k x h

module _ (pipeline : Bool) (num_worker num_epoch num_step : ℕ)
    (r : (i : ℕ) → Reports num_epoch (share num_worker num_step i) i) where
  samplers-level :
      (i : ℕ) → level (3 + 2 * num_epoch) (samplers pipeline num_worker num_epoch num_step i) ≡ true
  unfolding samplers level
  samplers-level zero = refl
  samplers-level (suc i) =
      level-two _ (run_sample pipeline num_worker num_epoch num_step i)
        (run_train (some i) num_epoch) _
        (waits-run_sample pipeline num_worker num_epoch num_step i (r i))
        (waits-run_train (some i) num_epoch) (samplers-level i)

  samplers-heeds :
      (m i : ℕ)
      → i ≤ m
      → all_of (heeds m 0) (samplers pipeline num_worker num_epoch num_step i) ≡ true
  unfolding samplers
  samplers-heeds m zero h = refl
  samplers-heeds m (suc i) h = ground (
    arith,
    heeds-run_sample pipeline num_worker num_epoch num_step i (r i) m,
    heeds-run_train (some i) m num_epoch (λ j e. ground arith),
    samplers-heeds m i (omega arith),
  )

  samplers-get :
      (i m : ℕ)
      → i < m
      → (k : ℕ) × (get_elem? (samplers pipeline num_worker num_epoch num_step m) k
          ≡ some (run_sample pipeline num_worker num_epoch num_step i))
  unfolding samplers
  samplers-get i zero lt = absurd (omega arith)
  samplers-get i (suc m) lt = elim (ℕ_discrete i m) [
    | yes same ↦
        (0, ap (λ j. some (run_sample pipeline num_worker num_epoch num_step j)) (sym same))
    | no ne ↦ let (k, found) = samplers-get i m (omega (arith, ne)) in (suc (suc k), found)
  ]

module _ (pipeline : Bool) (num_sampler num_trainer num_epoch num_step : ℕ)
    (some_epoch : 0 < num_epoch) (some_step : 0 < share num_sampler num_step 0) where
  reports : (i : ℕ) → Reports num_epoch (share num_sampler num_step i) i
  reports i =
      (some_epoch, λ first. subst (λ j. 0 < share num_sampler num_step j) (sym first) some_step)

  abbrev origin : System
  origin = start pipeline num_sampler num_trainer num_epoch num_step

  abbrev crowd : List (List Action)
  crowd = samplers pipeline num_sampler num_epoch num_step num_sampler

  Signaler-start : (i : ℕ) → i < num_sampler → Signaler i 0 origin
  unfolding start is_training
  Signaler-start i lt =
      let (k, found) =
        samplers-get pipeline num_sampler num_epoch num_step reports i num_sampler lt in
      record {
        place = k;
        program = run_sample pipeline num_sampler num_epoch num_step i;
        found = get_elem?-append_left crowd (trainers num_epoch num_trainer) k _ found;
        keeps = signals-run_sample pipeline num_sampler num_epoch num_step i (reports i);
        armed = λ t. absurd (ground arith);
      }

  Alive-start : 0 < num_trainer → Alive num_sampler 0 (3 + 2 * num_epoch) origin
  unfolding start level
  Alive-start some_trainer = record {
    even =
        all_of-append _ crowd (trainers num_epoch num_trainer)
          (samplers-level pipeline num_sampler num_epoch num_step reports num_sampler)
          (trainers-level num_epoch num_trainer);
    heedful =
        all_of-append (heeds num_sampler 0) crowd (trainers num_epoch num_trainer)
          (samplers-heeds pipeline num_sampler num_epoch num_step reports num_sampler num_sampler
            (omega arith))
          (trainers-heeds num_sampler num_epoch num_trainer);
    signaler = Signaler-start;
    some_process = omega (
      arith,
      length-append crowd (trainers num_epoch num_trainer),
      trainers-length num_epoch num_trainer,
    );
  }

  -- Where there is an epoch, a trainer, and a step of the first sampler: whatever order the
  -- processes run in, the number of steps made is at most the bound of the actions at the start, and
  -- either every process has ended, or a step can be made: one process can perform its next action,
  -- or all of them wait and the barrier opens. So no switcher waits for ever for the event of its
  -- sampler, no process waits for ever at the barrier, and every order ends with all processes
  -- ended.
  pub start_ends :
      (s : System)
      → 0 < num_trainer
      → (steps : Steps (start pipeline num_sampler num_trainer num_epoch num_step) s)
      → (steps_of steps ≤ remaining (start pipeline num_sampler num_trainer num_epoch num_step))
        × ((is_finished s ≡ true) ⊎ CanStep s)
  start_ends s some_trainer steps =
      let (n, w, alive, bound) =
        Alive-Steps num_sampler (3 + 2 * num_epoch) _ s (Alive-start some_trainer) steps in
      (omega arith, can_step num_sampler n w s alive)
