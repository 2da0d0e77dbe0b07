-- ===== src/Switcher/System.antt =====
-- The main part of example/samgraph/balance_switcher/train_pinsage.py: all its processes, what they
-- share, and their steps. Calls of the sampling engine and the training of a batch are taken to
-- return, and the barrier's timeout is left out.
use fgnn_artifacts.Prelude.{
  ℕ, zero, suc, ◌≡◌, Bool, true, false, Option, none, some, List, [], ◌∷◌, ◌++◌, all_of, get_elem?,
  ◌==◌, if◌then◌else◌,
}
use fgnn_artifacts.Prelude
use fgnn_artifacts.Switcher.{
  Action, wait, release, sample, drain, clear, set, await, fail, run_sample, run_train,
}

-- The semaphore's permits, the events, and the epochs of the batches that have been trained, the last
-- one first.
pub record Shared : Type 0 where
  pub permits : ℕ
  pub events : ℕ → Bool
  pub trained : List ℕ

abbrev put : (ℕ → Bool) → ℕ → Bool → ℕ → Bool
put events i b j = if j == i then b else events j

-- What the next action of a process does. Where it has to wait or has failed, there is none. `drain` acquires and
-- trains as long as there is a permit, and leaves the loop if there is none.
unfoldable pub perform : List Action → Shared → Option (List Action × Shared)
perform [] s = none
perform (wait ∷ p) s = none
perform (fail ∷ p) s = none
perform (release e ∷ p) s = some (p, record s { permits = suc s.permits })
perform (sample e ∷ p) s = some (p, s)
perform (drain e ∷ p) s = elim s.permits [
  | zero ↦ some (p, s)
  | suc n ↦ some (drain e ∷ p, record s { permits = n; trained = e ∷ s.trained })
]
perform (clear i ∷ p) s = some (p, record s { events = put s.events i false })
perform (set i ∷ p) s = some (p, record s { events = put s.events i true })
perform (await i ∷ p) s = if s.events i then some (p, s) else none

pub record System : Type 0 where
  pub processes : List (List Action)
  pub shared : Shared

-- The process number `i` performs its next action.
unfoldable pub advance : ℕ → System → Option System
unfolding perform
advance i s = elim (get_elem? s.processes i) [
  | none ↦ none
  | some p ↦ elim (perform p s.shared) [
    | none ↦ none
    | some (p', shared) ↦
        some (record { processes = Prelude.set s.processes i p'; shared = shared })
  ]
]

-- Each of the processes waits, and goes on.
unfoldable pub opened : List (List Action) → Option (List (List Action))
opened [] = some []
opened ((wait ∷ p) ∷ ps) = elim (opened ps) [ none ↦ none | some ps' ↦ some (p ∷ ps') ]
opened _ = none

pub data Step (s : System) : System → Type 0 where
  go : {t : System} (i : ℕ) → advance i s ≡ some t → Step s t
  pass :
      {ps : List (List Action)}
      → opened s.processes ≡ some ps
      → Step s (record s { processes = ps })

-- `Steps s t`: from s to t in any number of steps.
pub data Steps (s : System) : System → Type 0 where
  stop : Steps s s
  step : {t u : System} → Steps s t → Step t u → Steps s u

unfoldable pub is_over : List Action → Bool
is_over [] = true
is_over (_ ∷ _) = false

unfoldable pub is_finished : System → Bool
unfolding is_over
is_finished s = all_of is_over s.processes

-- Each sampler with its switcher, from the last one to the first.
unfoldable pub samplers : Bool → ℕ → ℕ → ℕ → ℕ → List (List Action)
unfolding run_sample run_train
samplers pipeline num_worker num_epoch num_step zero = []
samplers pipeline num_worker num_epoch num_step (suc i) =
    run_sample pipeline num_worker num_epoch num_step i
    ∷ run_train (some i) num_epoch
    ∷ samplers pipeline num_worker num_epoch num_step i

unfoldable pub trainers : ℕ → ℕ → List (List Action)
unfolding run_train
trainers num_epoch zero = []
trainers num_epoch (suc j) = run_train none num_epoch ∷ trainers num_epoch j

-- What the main part starts, for the numbers of samplers and trainers.
unfoldable pub start : Bool → ℕ → ℕ → ℕ → ℕ → System
unfolding samplers trainers
start pipeline num_sampler num_trainer num_epoch num_step = record {
  processes =
      samplers pipeline num_sampler num_epoch num_step num_sampler
      ++ trainers num_epoch num_trainer;
  shared = record { permits = 0; events = λ i. false; trained = [] };
}
