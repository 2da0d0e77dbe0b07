-- ===== src/Switcher/Programs.antt =====
-- What the programs of run_sample and run_train hold.
use fgnn_artifacts.Prelude.{
  ℕ, zero, suc, ◌+◌, ◌*◌, ◌≡◌, refl, Bool, true, false, Option, none, some, List, [], ◌∷◌, ◌++◌,
  replicate, ◌==◌, if◌then◌else◌, arith,
}
use fgnn_artifacts.Switcher.{
  Action, wait, release, sample, set, sampler_epoch, trainer_epoch, report,
}
use fgnn_artifacts.Switcher.Traces.{
  waits, pending, drains, staged, Body, Plain, waits-append, pending-append, drains-append,
  staged-append,
}

-- Actions that neither wait nor use the semaphore but for releases in time.
waits-releases : (steps e : ℕ) → waits (replicate steps (release e)) ≡ 0
unfolding waits
waits-releases zero e = refl
waits-releases (suc steps) e = waits-releases steps e

waits-samples : (steps e : ℕ) → waits (replicate steps (sample e)) ≡ 0
unfolding waits
waits-samples zero e = refl
waits-samples (suc steps) e = waits-samples steps e

pending-releases :
    (steps e k : ℕ) → pending e (replicate steps (release k)) ≡ (if k == e then steps else 0)
unfolding pending
pending-releases zero e k = ground arith
pending-releases (suc steps) e k = ground (arith, pending-releases steps e k)

pending-samples : (steps e k : ℕ) → pending e (replicate steps (sample k)) ≡ 0
unfolding pending
pending-samples zero e k = refl
pending-samples (suc steps) e k = pending-samples steps e k

drains-releases : (steps e k : ℕ) → drains e (replicate steps (release k)) ≡ 0
unfolding drains
drains-releases zero e k = refl
drains-releases (suc steps) e k = drains-releases steps e k

drains-samples : (steps e k : ℕ) → drains e (replicate steps (sample k)) ≡ 0
unfolding drains
drains-samples zero e k = refl
drains-samples (suc steps) e k = drains-samples steps e k

staged-releases : (steps e : ℕ) → staged (2 + 2 * e) (replicate steps (release e)) ≡ true
unfolding staged
staged-releases zero e = refl
staged-releases (suc steps) e = ground (arith, staged-releases steps e)

staged-samples : (steps n e : ℕ) → staged n (replicate steps (sample e)) ≡ true
unfolding staged
staged-samples zero n e = refl
staged-samples (suc steps) n e = staged-samples steps n e

-- The rest of a sampler's epoch, behind its releases.
abbrev rest_of : Bool → ℕ → ℕ → ℕ → List Action
rest_of pipeline i steps e =
    (if pipeline then wait ∷ [] else [])
    ++ (replicate steps (sample e) ++ ((if pipeline then [] else wait ∷ []) ++ (set i ∷ wait ∷ [])))

waits-rest : (pipeline : Bool) (i steps e : ℕ) → waits (rest_of pipeline i steps e) ≡ 2
unfolding waits
waits-rest true i steps e =
    ground
      (arith, waits-append (replicate steps (sample e)) (set i ∷ wait ∷ []), waits-samples steps e)
waits-rest false i steps e = ground (
  arith,
  waits-append (replicate steps (sample e)) (wait ∷ set i ∷ wait ∷ []),
  waits-samples steps e,
)

pending-rest : (pipeline : Bool) (i steps e k : ℕ) → pending e (rest_of pipeline i steps k) ≡ 0
unfolding pending
pending-rest true i steps e k = ground (
  arith,
  pending-append e (replicate steps (sample k)) (set i ∷ wait ∷ []),
  pending-samples steps e k,
)
pending-rest false i steps e k = ground (
  arith,
  pending-append e (replicate steps (sample k)) (wait ∷ set i ∷ wait ∷ []),
  pending-samples steps e k,
)

drains-rest : (pipeline : Bool) (i steps e k : ℕ) → drains e (rest_of pipeline i steps k) ≡ 0
unfolding drains
drains-rest true i steps e k = ground (
  arith,
  drains-append e (replicate steps (sample k)) (set i ∷ wait ∷ []),
  drains-samples steps e k,
)
drains-rest false i steps e k = ground (
  arith,
  drains-append e (replicate steps (sample k)) (wait ∷ set i ∷ wait ∷ []),
  drains-samples steps e k,
)

staged-rest : (pipeline : Bool) (i steps n e : ℕ) → staged n (rest_of pipeline i steps e) ≡ true
unfolding staged
staged-rest true i steps n e = ground (
  arith,
  staged-append (suc n) (replicate steps (sample e)) (set i ∷ wait ∷ []),
  staged-samples steps (suc n) e,
)
staged-rest false i steps n e = ground (
  arith,
  staged-append n (replicate steps (sample e)) (wait ∷ set i ∷ wait ∷ []),
  staged-samples steps n e,
)

pub sampler-Body : (pipeline : Bool) (i steps : ℕ) → Body (sampler_epoch pipeline i steps) steps 0
unfolding sampler_epoch waits pending drains staged
sampler-Body pipeline i steps = record {
  two = λ e. ground (
    arith,
    waits-append (replicate steps (release e)) (rest_of pipeline i steps e),
    waits-releases steps e,
    waits-rest pipeline i steps e,
  );
  in_time = λ e. ground (
    arith,
    staged-append (2 + 2 * e) (replicate steps (release e)) (rest_of pipeline i steps e),
    staged-releases steps e,
    staged-rest pipeline i steps (2 + 2 * e + waits (replicate steps (release e))) e,
  );
  amount_of = λ e k. ground (
    arith,
    pending-append e (replicate steps (release k)) (rest_of pipeline i steps k),
    pending-releases steps e k,
    pending-rest pipeline i steps e k,
  );
  turns_of = λ e k. ground (
    arith,
    drains-append e (replicate steps (release k)) (rest_of pipeline i steps k),
    drains-releases steps e k,
    drains-rest pipeline i steps e k,
  );
}

pub trainer-Body : (switcher : Option ℕ) → Body (trainer_epoch switcher) 0 1
unfolding trainer_epoch waits pending drains staged
trainer-Body none = record {
  two = λ e. refl;
  in_time = λ e. ground arith;
  amount_of = λ e k. ground arith;
  turns_of = λ e k. ground arith;
}
trainer-Body (some i) = record {
  two = λ e. refl;
  in_time = λ e. ground arith;
  amount_of = λ e k. ground arith;
  turns_of = λ e k. ground arith;
}

pub sampler-Plain :
    (worker_id num_epoch num_step : ℕ) → Plain (report worker_id num_epoch num_step ++ (wait ∷ []))
unfolding report pending drains staged
sampler-Plain worker_id num_epoch num_step = record {
  in_order = λ n. ground arith;
  releases_none = λ e. ground arith;
  drains_none = λ e. ground arith;
}

pub trainer-Plain : Plain (wait ∷ [])
unfolding pending drains staged
trainer-Plain = record { in_order = λ n. refl; releases_none = λ e. refl; drains_none = λ e. refl }
