-- ===== src/Workers/Barriers/Stages.antt =====
-- How often the processes wait, and between which waits they sample and get batches.
use fgnn_artifacts.Prelude.{
  ℕ, zero, suc, ◌+◌, ◌*◌, ◌≡◌, refl, Bool, true, false, ◌&&◌, ◌||◌, List, [], ◌∷◌, ◌++◌, replicate,
  length, ltb, if◌then◌else◌, ◌==◌, arith,
}
use fgnn_artifacts.Workers.{sample_steps, need_steps, train_rounds}
use fgnn_artifacts.Workers.Barriers.{
  Event, wait, sample, extract, batch, fail, step_events, sampler_epoch, trainer_epoch, epochs,
  process, report, run_sample, run_train,
}

-- How often a process waits.
unfoldable pub waits : List Event → ℕ
waits [] = 0
waits (wait ∷ es) = suc (waits es)
waits (sample e ∷ es) = waits es
waits (extract e n ∷ es) = waits es
waits (batch e s ∷ es) = waits es
waits (fail ∷ es) = waits es

-- Each event but a wait satisfies a test on the number of waits before it.
unfoldable pub staged : (ℕ → Event → Bool) → ℕ → List Event → Bool
staged p n [] = true
staged p n (wait ∷ es) = staged p (suc n) es
staged p n (sample e ∷ es) = p n (sample e) && staged p n es
staged p n (extract e k ∷ es) = p n (extract e k) && staged p n es
staged p n (batch e s ∷ es) = p n (batch e s) && staged p n es
staged p n (fail ∷ es) = staged p n es

waits-append : (xs ys : List Event) → waits (xs ++ ys) ≡ waits xs + waits ys
unfolding waits
waits-append [] ys = omega arith
waits-append (wait ∷ xs) ys = ground (arith, waits-append xs ys)
waits-append (sample e ∷ xs) ys = waits-append xs ys
waits-append (extract e n ∷ xs) ys = waits-append xs ys
waits-append (batch e s ∷ xs) ys = waits-append xs ys
waits-append (fail ∷ xs) ys = waits-append xs ys

waits-samples : (steps e : ℕ) → waits (replicate steps (sample e)) ≡ 0
unfolding waits
waits-samples zero e = refl
waits-samples (suc steps) e = waits-samples steps e

waits-steps :
    (ahead : Bool) (num_step e : ℕ) (bound : Bool) (steps : List ℕ)
    → waits (step_events ahead num_step e bound steps) ≡ 0
unfolding waits step_events
waits-steps ahead num_step e bound [] = refl
waits-steps ahead num_step e bound (s ∷ steps) =
    ground (arith, waits-steps ahead num_step e (bound || ltb s num_step) steps)

waits-report : (worker_id num_epoch rounds : ℕ) → waits (report worker_id num_epoch rounds) ≡ 0
unfolding waits report
waits-report worker_id num_epoch rounds = ground arith

staged-append :
    (p : ℕ → Event → Bool) (n : ℕ) (xs ys : List Event)
    → staged p n (xs ++ ys) ≡ staged p n xs && staged p (n + waits xs) ys
unfolding staged waits
staged-append p n [] ys = let same : n + 0 ≡ n = omega arith in rw same refl
staged-append p n (wait ∷ xs) ys =
    let same : n + suc (waits xs) ≡ suc n + waits xs = omega arith in
    rw same (staged-append p (suc n) xs ys)
staged-append p n (sample e ∷ xs) ys = ground (arith, staged-append p n xs ys)
staged-append p n (extract e k ∷ xs) ys = ground (arith, staged-append p n xs ys)
staged-append p n (batch e s ∷ xs) ys = ground (arith, staged-append p n xs ys)
staged-append p n (fail ∷ xs) ys = staged-append p n xs ys

waits-sampler_epoch : (pipeline : Bool) (steps e : ℕ) → waits (sampler_epoch pipeline steps e) ≡ 2
unfolding sampler_epoch waits
waits-sampler_epoch true steps e =
    ground (arith, waits-append (replicate steps (sample e)) (wait ∷ []), waits-samples steps e)
waits-sampler_epoch false steps e =
    ground
      (arith, waits-append (replicate steps (sample e)) (wait ∷ wait ∷ []), waits-samples steps e)

waits-trainer_epoch :
    (ahead : Bool) (need num_step : ℕ) (steps : List ℕ) (e : ℕ)
    → waits (trainer_epoch ahead need num_step steps e) ≡ 2
unfolding trainer_epoch waits
waits-trainer_epoch ahead need num_step steps e = ground (
  arith,
  waits-append (step_events ahead num_step e false steps) (wait ∷ []),
  waits-steps ahead num_step e false steps,
)

module _ (body : ℕ → List Event) (two : (e : ℕ) → waits (body e) ≡ 2) where
  waits-epochs : (rounds e : ℕ) → waits (epochs body rounds e) ≡ 2 * rounds
  unfolding epochs waits
  waits-epochs zero e = refl
  waits-epochs (suc rounds) e = ground (
    arith,
    waits-append (body e) (epochs body rounds (suc e)),
    two e,
    waits-epochs rounds (suc e),
  )

  waits-process :
      (num_epoch : ℕ) (end : List Event)
      → waits end ≡ 2
      → waits (process body num_epoch end) ≡ 2 * num_epoch + 4
  unfolding process waits
  waits-process num_epoch end last =
      ground (arith, waits-append (epochs body num_epoch 0) end, waits-epochs num_epoch 0, last)

  module _ (p : ℕ → Event → Bool) (good : (e : ℕ) → staged p (2 + 2 * e) (body e) ≡ true) where
    staged-epochs : (rounds e : ℕ) → staged p (2 + 2 * e) (epochs body rounds e) ≡ true
    unfolding epochs staged
    staged-epochs zero e = refl
    staged-epochs (suc rounds) e =
        let next : 2 + 2 * e + waits (body e) ≡ 2 + 2 * suc e = omega (arith, two e) in
        rw (staged-append p (2 + 2 * e) (body e) (epochs body rounds (suc e)), good e, next)
          (staged-epochs rounds (suc e))

    staged-process :
        (num_epoch : ℕ) (end : List Event)
        → ((n : ℕ) → staged p n end ≡ true)
        → staged p 0 (process body num_epoch end) ≡ true
    unfolding process staged
    staged-process num_epoch end last =
        rw (staged-append p 2 (epochs body num_epoch 0) end, staged-epochs num_epoch 0) (last _)

staged-samples :
    (p : ℕ → Event → Bool) (n steps e : ℕ)
    → p n (sample e) ≡ true
    → staged p n (replicate steps (sample e)) ≡ true
unfolding staged
staged-samples p n zero e h = refl
staged-samples p n (suc steps) e h = ground (arith, h, staged-samples p n steps e h)

staged-steps :
    (p : ℕ → Event → Bool) (n num_step e : ℕ) (ahead bound : Bool) (steps : List ℕ)
    → p n (sample e) ≡ true
    → ((s : ℕ) → p n (batch e s) ≡ true)
    → staged p n (step_events ahead num_step e bound steps) ≡ true
unfolding staged step_events
staged-steps p n num_step e ahead bound [] hs hb = refl
staged-steps p n num_step e ahead bound (s ∷ steps) hs hb =
    ground
      (arith, hs, hb s, staged-steps p n num_step e ahead (bound || ltb s num_step) steps hs hb)

-- The ends of the processes.
staged-report :
    (p : ℕ → Event → Bool) (n worker_id num_epoch rounds : ℕ)
    → (staged p n (report worker_id num_epoch rounds ++ (wait ∷ wait ∷ [])) ≡ true)
      × (staged p n (wait ∷ wait ∷ report worker_id num_epoch rounds) ≡ true)
unfolding staged report
staged-report p n worker_id num_epoch rounds = (ground arith, ground arith)

-- The wait after which an epoch is sampled, and the one after which it is trained.
abbrev pub sample_stage : Bool → ℕ → ℕ
sample_stage pipeline e = if pipeline then 3 + 2 * e else 2 + 2 * e

abbrev pub train_stage : ℕ → ℕ
train_stage e = 3 + 2 * e

-- A process of run_sample gets no batch, and neither kind calls anything in another epoch's stage.
abbrev pub sampling : Bool → ℕ → Event → Bool
sampling pipeline n wait = true
sampling pipeline n (sample e) = n == sample_stage pipeline e
sampling pipeline n (extract e k) = false
sampling pipeline n (batch e s) = false
sampling pipeline n fail = true

abbrev pub training : ℕ → Event → Bool
training n wait = true
training n (sample e) = n == train_stage e
training n (extract e k) = n == train_stage e
training n (batch e s) = n == train_stage e
training n fail = true

staged-sampler_epoch :
    (pipeline : Bool) (steps e : ℕ)
    → staged (sampling pipeline) (2 + 2 * e) (sampler_epoch pipeline steps e) ≡ true
unfolding sampler_epoch staged
staged-sampler_epoch true steps e = ground (
  arith,
  staged-append (sampling true) (3 + 2 * e) (replicate steps (sample e)) (wait ∷ []),
  staged-samples (sampling true) (3 + 2 * e) steps e (ground arith),
)
staged-sampler_epoch false steps e = ground (
  arith,
  staged-append (sampling false) (2 + 2 * e) (replicate steps (sample e)) (wait ∷ wait ∷ []),
  staged-samples (sampling false) (2 + 2 * e) steps e (ground arith),
)

staged-trainer_epoch :
    (ahead : Bool) (need num_step : ℕ) (steps : List ℕ) (e : ℕ)
    → staged training (2 + 2 * e) (trainer_epoch ahead need num_step steps e) ≡ true
unfolding trainer_epoch staged
staged-trainer_epoch ahead need num_step steps e = ground (
  arith,
  staged-append training (3 + 2 * e) (step_events ahead num_step e false steps) (wait ∷ []),
  staged-steps training (3 + 2 * e) num_step e ahead false steps (ground arith) (λ s. ground arith),
)

module _ (pipeline single_gpu : Bool) (num_epoch num_step : ℕ) where
  pub waits-run_sample :
      (samplers i : ℕ)
      → waits (run_sample pipeline samplers num_epoch num_step i) ≡ 2 * num_epoch + 4
  unfolding run_sample waits
  waits-run_sample samplers i =
      let steps = sample_steps samplers num_step i in
      waits-process _ (waits-sampler_epoch pipeline steps) num_epoch _ (
        ground (
          arith,
          waits-append (report i num_epoch steps) (wait ∷ wait ∷ []),
          waits-report i num_epoch steps,
        ))

  pub waits-run_train :
      (trainers j : ℕ)
      → waits (run_train pipeline single_gpu trainers num_epoch num_step j) ≡ 2 * num_epoch + 4
  unfolding run_train waits
  waits-run_train trainers j =
      let rounds = train_rounds trainers num_step j in
      let need = need_steps trainers num_step j in
      waits-process (trainer_epoch (pipeline || single_gpu) need num_step rounds)
        (waits-trainer_epoch (pipeline || single_gpu) need num_step rounds) num_epoch
        (wait ∷ wait ∷ report j num_epoch (length rounds))
        (ground (arith, waits-report j num_epoch (length rounds)))

  -- A process of run_train makes its calls of sample_once, extract_start and get_next_batch for epoch
  -- e between its waits number 3 + 2 * e and 4 + 2 * e. A process of run_sample makes no such call
  -- but sample_once, and that for epoch e between the same waits if it is pipelined, and between
  -- the waits 2 + 2 * e and 3 + 2 * e, so before the training of the epoch begins, if it is not.
  pub stages_lem :
      (samplers i trainers j : ℕ)
      → (staged (sampling pipeline) 0 (run_sample pipeline samplers num_epoch num_step i) ≡ true)
        × (staged training 0 (run_train pipeline single_gpu trainers num_epoch num_step j) ≡ true)
  unfolding run_sample run_train
  stages_lem samplers i trainers j =
      let ahead = pipeline || single_gpu in
      let need = need_steps trainers num_step j in
      let steps = train_rounds trainers num_step j in
      (
        staged-process _ (waits-sampler_epoch pipeline (sample_steps samplers num_step i)) _
            (staged-sampler_epoch pipeline (sample_steps samplers num_step i)) num_epoch _
            (λ n. (staged-report _ n i num_epoch _).0),
        staged-process _ (waits-trainer_epoch ahead need num_step steps) _
            (staged-trainer_epoch ahead need num_step steps) num_epoch _
            (λ n. (staged-report _ n j num_epoch _).1),
      )
