-- ===== src/Workers/Barriers/Progress.antt =====
-- No process waits for ever at the global barrier of example/samgraph/multi_gpu/train_gcn.py.
use fgnn_artifacts.Prelude.{
  ℕ, zero, suc, ◌+◌, ◌*◌, ◌≤◌, ◌-◌, ◌==◌, ◌≡◌, refl, ◌⊎◌, inl, inr, Bool, true, false, not, ◌&&◌,
  ◌<◌, some, Option-cases, List, [], ◌∷◌, ◌++◌, length, all_of, arith,
}
use fgnn_artifacts.Workers.Barriers.{Event, wait, sample, extract, batch, fail}
use fgnn_artifacts.Workers.{sample_steps}
use fgnn_artifacts.Workers.Barriers.Stages.{waits, waits-run_sample, waits-run_train}
use fgnn_artifacts.Workers.Barriers.Failures.{fails, fails-run_sample, fails-run_train}
use fgnn_artifacts.Workers.Barriers.System.{
  System, call, advance, release, Step, go, pass, Steps, stop, step, is_over, is_finished,
  processes, start,
}

-- The events that are left to all the processes.
unfoldable pub size : System → ℕ
size [] = 0
size (p ∷ ps) = length p + size ps

-- Each process has the same number of waits left, and does not fail.
unfoldable level : ℕ → System → Bool
unfolding waits fails
level n s = all_of (λ p. (waits p == n) && not (fails p)) s

call_lem :
    (p p' : List Event)
    → call p ≡ some p'
    → (waits p' ≡ waits p) × (fails p' ≡ fails p) × (suc (length p') ≡ length p)
unfolding call waits fails
call_lem [] p' e = absurd (ground arith)
call_lem (wait ∷ es) p' e = absurd (ground arith)
call_lem (sample k ∷ es) p' e = ground arith
call_lem (extract k n ∷ es) p' e = ground arith
call_lem (batch k s ∷ es) p' e = ground arith
call_lem (fail ∷ es) p' e = absurd (ground arith)

advance_lem :
    (n i : ℕ) (s t : System)
    → advance i s ≡ some t
    → level n s ≡ true
    → (level n t ≡ true) × (suc (size t) ≡ size s)
unfolding advance level size
advance_lem n i [] t e l = absurd (ground arith)
advance_lem n zero (p ∷ ps) t e l = elim (Option-cases (call p)) [
  | inl none_left ↦ absurd (ground arith)
  | inr (p', called) ↦ ground (arith, call_lem p p' called)
]
advance_lem n (suc i) (p ∷ ps) t e l = elim (Option-cases (advance i ps)) [
  | inl none_left ↦ absurd (ground arith)
  | inr (ps', called) ↦ ground (arith, advance_lem n i ps ps' called (ground arith))
]

release_lem :
    (n : ℕ) (s t : System)
    → release s ≡ some t
    → level n s ≡ true
    → (level (n - 1) t ≡ true) × (length s + size t ≡ size s)
unfolding release level size waits fails
release_lem n [] t e l = ground arith
release_lem n ([] ∷ ps) t e l = absurd (ground arith)
release_lem n ((wait ∷ es) ∷ ps) t e l = elim (Option-cases (release ps)) [
  | inl none_left ↦ absurd (ground arith)
  | inr (ps', released) ↦ ground (arith, release_lem n ps ps' released (ground arith))
]
release_lem n ((sample k ∷ es) ∷ ps) t e l = absurd (ground arith)
release_lem n ((extract k m ∷ es) ∷ ps) t e l = absurd (ground arith)
release_lem n ((batch k m ∷ es) ∷ ps) t e l = absurd (ground arith)
release_lem n ((fail ∷ es) ∷ ps) t e l = absurd (ground arith)

-- The number of steps is bounded, and the processes stay level.
Steps_lem :
    (n m : ℕ) (s t : System)
    → level n s ≡ true
    → Steps m s t
    → (k : ℕ) × (level k t ≡ true) × (m + size t ≤ size s)
Steps_lem n zero s t l stop = (n, l, omega arith)
Steps_lem n (suc m) s t l (step {t = u} before (go i e)) =
    let (k, lk, bound) = Steps_lem n m s u l before in
    let (lt, smaller) = advance_lem k i u t e lk in (k, lt, omega arith)
Steps_lem n (suc m) s t l (step before (pass {p = p} {s = u} e)) =
    let (k, lk, bound) = Steps_lem n m s (p ∷ u) l before in
    let (lt, smaller) = release_lem k (p ∷ u) t e lk in (k - 1, lt, omega arith)

-- A process that has ended, and one that waits, tell the number of waits that all have left.
ended_lem : (n : ℕ) (ps : System) → is_finished ps ≡ true → level (suc n) ps ≡ true → ps ≡ []
unfolding is_finished is_over level waits fails
ended_lem n [] f l = refl
ended_lem n ([] ∷ ps) f l = absurd (ground arith)
ended_lem n ((e ∷ es) ∷ ps) f l = absurd (ground arith)

waiting_lem : (ps t : System) → release ps ≡ some t → level 0 ps ≡ true → ps ≡ []
unfolding release level waits fails
waiting_lem [] t r l = refl
waiting_lem ([] ∷ ps) t r l = absurd (ground arith)
waiting_lem ((wait ∷ es) ∷ ps) t r l = absurd (ground arith)
waiting_lem ((sample k ∷ es) ∷ ps) t r l = absurd (ground arith)
waiting_lem ((extract k m ∷ es) ∷ ps) t r l = absurd (ground arith)
waiting_lem ((batch k m ∷ es) ∷ ps) t r l = absurd (ground arith)
waiting_lem ((fail ∷ es) ∷ ps) t r l = absurd (ground arith)

-- All have ended, or all wait, or one of them can go on.
abbrev Verdict : System → Type 0
Verdict s =
    (is_finished s ≡ true)
    ⊎ (((t : System) × (release s ≡ some t)) ⊎ ((i : ℕ) × (t : System) × (advance i s ≡ some t)))

Verdict-cons :
    (n : ℕ) (p : List Event) (ps : System) → level n (p ∷ ps) ≡ true → Verdict ps → Verdict (p ∷ ps)
unfolding release advance level waits fails is_finished call is_over
Verdict-cons n p ps l (inr (inr (i, t, e))) = inr (inr (suc i, p ∷ t, ground arith))
Verdict-cons n (sample k ∷ es) ps l v = inr (inr (0, es ∷ ps, refl))
Verdict-cons n (extract k m ∷ es) ps l v = inr (inr (0, es ∷ ps, refl))
Verdict-cons n (batch k m ∷ es) ps l v = inr (inr (0, es ∷ ps, refl))
Verdict-cons n (fail ∷ es) ps l v = absurd (ground arith)
Verdict-cons n [] ps l (inl f) = inl f
Verdict-cons n [] ps l (inr (inl (t, r))) = inl (ground (arith, waiting_lem ps t r))
Verdict-cons n (wait ∷ es) ps l (inl f) =
    inr (inl (es ∷ [], ground (arith, ended_lem (waits es) ps f)))
Verdict-cons n (wait ∷ es) ps l (inr (inl (t, r))) = inr (inl (es ∷ t, ground arith))

verdict : (n : ℕ) (s : System) → level n s ≡ true → Verdict s
unfolding level is_finished
verdict n [] l = inl refl
verdict n (p ∷ ps) l = Verdict-cons n p ps l (verdict n ps (ground arith))

level-append :
    (n : ℕ) (s t : System) → level n s ≡ true → level n t ≡ true → level n (s ++ t) ≡ true
unfolding level
level-append n [] t l l' = l'
level-append n (p ∷ s) t l l' = ground (arith, level-append n s t)

level-processes :
    (n m : ℕ) (p : ℕ → List Event)
    → ((i : ℕ) → i < m → (waits (p i) ≡ n) × (fails (p i) ≡ false))
    → level n (processes p m) ≡ true
unfolding level processes
level-processes n zero p h = refl
level-processes n (suc m) p h =
    ground (arith, h m (omega arith), level-processes n m p (λ i lt. h i (omega (arith, lt))))

pub CanStep : System → Type 0
CanStep s = (t : System) × Step s t

can_step : (s : System) → Verdict s → (is_finished s ≡ true) ⊎ CanStep s
unfolding CanStep release is_finished
can_step s (inl f) = inl f
can_step s (inr (inr (i, t, e))) = inr (t, go i e)
can_step [] (inr (inl (t, r))) = inl refl
can_step (p ∷ ps) (inr (inl (t, r))) = inr (t, pass r)

module _ (pipeline single_gpu : Bool) (samplers trainers num_epoch num_step : ℕ)
    (some_epoch : 0 < num_epoch) (some_step : 0 < sample_steps samplers num_step 0)
    (enough : trainers ≤ num_step) where
  level-start :
      level (2 * num_epoch + 4) (start pipeline single_gpu samplers trainers num_epoch num_step)
      ≡ true
  unfolding start
  level-start =
      level-append _ _ _
        (level-processes _ samplers _ (λ i lt. (
          waits-run_sample pipeline single_gpu num_epoch num_step samplers i,
          fails-run_sample pipeline single_gpu num_epoch num_step some_epoch samplers i some_step,
        )))
        (level-processes _ trainers _ (λ j lt. (
          waits-run_train pipeline single_gpu num_epoch num_step trainers j,
          fails-run_train pipeline single_gpu num_epoch num_step some_epoch trainers j lt
              (omega (arith, lt, enough)),
        )))

  -- Where there is an epoch, the first process of run_sample has a step, and there are at most as
  -- many processes of run_train as steps: whatever order the processes run in, after n steps from
  -- the start of the script n is at most the number of all their events, and either every process
  -- has ended, or a step can be made: a process can make its next call, or all of them wait at the
  -- barrier, which opens. So the processes never block one another at the barrier, and every order
  -- ends with all of them ended.
  pub start_progress :
      (n : ℕ) (s : System)
      → Steps n (start pipeline single_gpu samplers trainers num_epoch num_step) s
      → (n ≤ size (start pipeline single_gpu samplers trainers num_epoch num_step))
        × ((is_finished s ≡ true) ⊎ CanStep s)
  start_progress n s steps =
      let (k, l, bound) = Steps_lem _ n _ s level-start steps in
      (omega arith, can_step s (verdict k s l))
