-- ===== src/Switcher/Calls.antt =====
-- The events in the programs of example/samgraph/balance_switcher/train_pinsage.py: when they are
-- awaited, cleared and set.
use fgnn_artifacts.Prelude.{
  ℕ, zero, suc, ◌+◌, ◌*◌, ◌%◌, ◌≡◌, refl, Bool, true, false, ◌&&◌, ◌||◌, List, [], ◌∷◌, ◌++◌,
  append_assoc, replicate, ltb, leb, ◌==◌, if◌then◌else◌, arith,
}
use fgnn_artifacts.Switcher.{
  Action, wait, release, sample, drain, clear, set, await, fail, sampler_epoch,
}
use fgnn_artifacts.Switcher.System.{is_over}
use fgnn_artifacts.Switcher.Traces.{waits}

-- After n waits, an epoch is being trained.
unfoldable pub is_training : ℕ → Bool
is_training n = leb 3 n && (n % 2 == 1)

pub is_training-even : (e : ℕ) → is_training (2 + 2 * e) ≡ false
unfolding is_training
is_training-even e = ground arith

pub is_training-odd : (e : ℕ) → is_training (3 + 2 * e) ≡ true
unfolding is_training
is_training-odd e = ground arith

-- The event of one of the samplers is awaited only while an epoch is trained, by a process that waits
-- at the barrier later, and events are not cleared then. The process does not fail.
unfoldable pub heeds : ℕ → ℕ → List Action → Bool
heeds m n [] = true
heeds m n (wait ∷ p) = heeds m (suc n) p
heeds m n (await i ∷ p) = is_training n && (ltb i m && (ltb 0 (waits p) && heeds m n p))
heeds m n (clear i ∷ p) = (if is_training n then false else true) && heeds m n p
heeds m n (release e ∷ p) = heeds m n p
heeds m n (sample e ∷ p) = heeds m n p
heeds m n (drain e ∷ p) = heeds m n p
heeds m n (set i ∷ p) = heeds m n p
heeds m n (fail ∷ p) = false

-- The event i is set before the next wait.
unfoldable pub sets : ℕ → List Action → Bool
sets i [] = false
sets i (wait ∷ p) = false
sets i (set j ∷ p) = (j == i) || sets i p
sets i (release e ∷ p) = sets i p
sets i (sample e ∷ p) = sets i p
sets i (drain e ∷ p) = sets i p
sets i (clear j ∷ p) = sets i p
sets i (await j ∷ p) = sets i p
sets i (fail ∷ p) = false

-- A process that awaits nothing and sets the event i in each epoch that is trained.
unfoldable pub signals : ℕ → ℕ → List Action → Bool
signals i n [] = true
signals i n (wait ∷ p) =
    (if is_training (suc n) then is_over p || sets i p else true) && signals i (suc n) p
signals i n (await j ∷ p) = false
signals i n (fail ∷ p) = false
signals i n (release e ∷ p) = signals i n p
signals i n (sample e ∷ p) = signals i n p
signals i n (drain e ∷ p) = signals i n p
signals i n (clear j ∷ p) = signals i n p
signals i n (set j ∷ p) = signals i n p

module _ (m n i e : ℕ) (q : List Action) where
  heeds-releases : (k : ℕ) → heeds m n (replicate k (release e) ++ q) ≡ heeds m n q
  unfolding heeds
  heeds-releases zero = refl
  heeds-releases (suc k) = heeds-releases k

  heeds-samples : (k : ℕ) → heeds m n (replicate k (sample e) ++ q) ≡ heeds m n q
  unfolding heeds
  heeds-samples zero = refl
  heeds-samples (suc k) = heeds-samples k

  sets-samples : (k : ℕ) → sets i (replicate k (sample e) ++ q) ≡ sets i q
  unfolding sets
  sets-samples zero = refl
  sets-samples (suc k) = sets-samples k

  signals-releases : (k : ℕ) → signals i n (replicate k (release e) ++ q) ≡ signals i n q
  unfolding signals
  signals-releases zero = refl
  signals-releases (suc k) = signals-releases k

  signals-samples : (k : ℕ) → signals i n (replicate k (sample e) ++ q) ≡ signals i n q
  unfolding signals
  signals-samples zero = refl
  signals-samples (suc k) = signals-samples k

-- An epoch, and what follows it.
sampler_epoch_lem :
    (pipeline : Bool) (i steps e : ℕ) (q : List Action)
    → sampler_epoch pipeline i steps e ++ q
      ≡ clear i
        ∷ (replicate steps (release e)
            ++ (if pipeline
                then wait ∷ (replicate steps (sample e) ++ (set i ∷ wait ∷ q))
                else replicate steps (sample e) ++ (wait ∷ set i ∷ wait ∷ q)))
unfolding sampler_epoch
sampler_epoch_lem true i steps e q =
    rw
      (
        append_assoc (replicate steps (release e))
            (wait ∷ (replicate steps (sample e) ++ (set i ∷ wait ∷ []))) q,
        append_assoc (replicate steps (sample e)) (set i ∷ wait ∷ []) q,
      )
      refl
sampler_epoch_lem false i steps e q =
    rw
      (
        append_assoc (replicate steps (release e))
            (replicate steps (sample e) ++ (wait ∷ set i ∷ wait ∷ [])) q,
        append_assoc (replicate steps (sample e)) (wait ∷ set i ∷ wait ∷ []) q,
      )
      refl

pub heeds-sampler :
    (pipeline : Bool) (m i steps e : ℕ) (q : List Action)
    → heeds m (2 + 2 * e) (sampler_epoch pipeline i steps e ++ q) ≡ heeds m (4 + 2 * e) q
unfolding heeds
heeds-sampler true m i steps e q = ground (
  arith,
  sampler_epoch_lem true i steps e q,
  is_training-even e,
  heeds-releases m (2 + 2 * e) i e (wait ∷ (replicate steps (sample e) ++ (set i ∷ wait ∷ q)))
      steps,
  heeds-samples m (3 + 2 * e) i e (set i ∷ wait ∷ q) steps,
)
heeds-sampler false m i steps e q = ground (
  arith,
  sampler_epoch_lem false i steps e q,
  is_training-even e,
  heeds-releases m (2 + 2 * e) i e (replicate steps (sample e) ++ (wait ∷ set i ∷ wait ∷ q)) steps,
  heeds-samples m (2 + 2 * e) i e (wait ∷ set i ∷ wait ∷ q) steps,
)

pub signals-sampler :
    (pipeline : Bool) (i steps e : ℕ) (q : List Action)
    → signals i (2 + 2 * e) (sampler_epoch pipeline i steps e ++ q) ≡ signals i (4 + 2 * e) q
unfolding signals sets
signals-sampler true i steps e q = ground (
  arith,
  sampler_epoch_lem true i steps e q,
  is_training-even (suc e),
  signals-releases 0 (2 + 2 * e) i e (wait ∷ (replicate steps (sample e) ++ (set i ∷ wait ∷ q)))
      steps,
  signals-samples 0 (3 + 2 * e) i e (set i ∷ wait ∷ q) steps,
  sets-samples 0 0 i e (set i ∷ wait ∷ q) steps,
)
signals-sampler false i steps e q = ground (
  arith,
  sampler_epoch_lem false i steps e q,
  is_training-even (suc e),
  signals-releases 0 (2 + 2 * e) i e (replicate steps (sample e) ++ (wait ∷ set i ∷ wait ∷ q))
      steps,
  signals-samples 0 (2 + 2 * e) i e (wait ∷ set i ∷ wait ∷ q) steps,
)
