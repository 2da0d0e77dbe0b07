-- ===== src/Workers/Barriers/System.antt =====
-- example/samgraph/multi_gpu/train_gcn.py: all the processes that the script starts, with the
-- barrier that they share. A process is the list of the events that it has left. The calls between
-- the waits are taken to return, and what the processes of run_train agree on through
-- torch.distributed is left out, as is the barrier's timeout.
use fgnn_artifacts.Prelude.{
  ℕ, zero, suc, ◌≡◌, Bool, true, false, Option, none, some, List, [], ◌∷◌, ◌++◌, all_of,
}
use fgnn_artifacts.Workers.Barriers.{Event, wait, sample, extract, batch, run_sample, run_train}

abbrev pub System : Type 0
System = List (List Event)

-- A process goes on to its next call. At the barrier it stays, and so it does behind its end and where
-- it has failed: the others then wait at the barrier for a process that never comes.
unfoldable pub call : List Event → Option (List Event)
call (sample e ∷ es) = some es
call (extract e n ∷ es) = some es
call (batch e s ∷ es) = some es
call _ = none

-- The process number `i` goes on.
unfoldable pub advance : ℕ → System → Option System
unfolding call
advance i [] = none
advance zero (p ∷ ps) = elim (call p) [ none ↦ none | some p' ↦ some (p' ∷ ps) ]
advance (suc i) (p ∷ ps) = elim (advance i ps) [ none ↦ none | some ps' ↦ some (p ∷ ps') ]

-- Each of the processes waits, and goes on.
unfoldable pub release : System → Option System
release [] = some []
release ((wait ∷ es) ∷ ps) = elim (release ps) [ none ↦ none | some ps' ↦ some (es ∷ ps') ]
release _ = none

pub data Step : System → System → Type 0 where
  go : {s t : System} (i : ℕ) → advance i s ≡ some t → Step s t
  -- The barrier was made for all the processes that are started.
  pass : {p : List Event} {s t : System} → release (p ∷ s) ≡ some t → Step (p ∷ s) t

-- `Steps n s t`: from s to t by n steps.
pub data Steps : ℕ → System → System → Type 0 where
  stop : {s : System} → Steps 0 s s
  step : {n : ℕ} {s t u : System} → Steps n s t → Step t u → Steps (suc n) s u

unfoldable pub is_over : List Event → Bool
is_over [] = true
is_over (_ ∷ _) = false

-- All processes have ended.
unfoldable pub is_finished : System → Bool
unfolding is_over
is_finished s = all_of is_over s

-- The processes with the numbers from 0 to n - 1, the last one first.
unfoldable pub processes : (ℕ → List Event) → ℕ → System
processes p zero = []
processes p (suc n) = p n ∷ processes p n

-- What the main part of the script starts.
unfoldable pub start : Bool → Bool → ℕ → ℕ → ℕ → ℕ → System
unfolding processes run_sample run_train
start pipeline single_gpu samplers trainers num_epoch num_step =
    processes (run_sample pipeline samplers num_epoch num_step) samplers
    ++ processes (run_train pipeline single_gpu trainers num_epoch num_step) trainers
