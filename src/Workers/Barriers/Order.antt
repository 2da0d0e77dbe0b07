-- ===== src/Workers/Barriers/Order.antt =====
-- example/samgraph/multi_gpu/train_gcn.py: which of the processes' calls come before which, however
-- the processes are interleaved.
use fgnn_artifacts.Prelude.{
  ℕ, zero, suc, ◌≤◌, ◌<◌, ◌≡◌, refl, ◌⊎◌, inl, inr, Bool, true, false, not, ◌&&◌, ◌||◌, some,
  Option-cases, List, [], ◌∷◌, ◌++◌, get_elem?, replicate, ltb, ◌==◌, ℕ_discrete, arith,
}
use fgnn_artifacts.Workers.Barriers.{Event, wait, sample, extract, batch, fail}
use fgnn_artifacts.Workers.Barriers.Stages.{
  staged, sampling, training, sample_stage, train_stage, stages_lem,
}
use fgnn_artifacts.Workers.Barriers.System.{
  System, call, advance, release, go, pass, Steps, stop, step, processes, start,
}

abbrev Role : Type 0
Role = ℕ → Event → Bool

-- Each process has only calls left that its role has after n or more waits.
unfoldable fits : List Role → ℕ → System → Bool
unfolding staged
fits [] n [] = true
fits [] n (_ ∷ _) = false
fits (_ ∷ _) n [] = false
fits (r ∷ rs) n (p ∷ ps) = staged r n p && fits rs n ps

staged-call :
    (r : Role) (n : ℕ) (p p' : List Event)
    → call p ≡ some p'
    → staged r n p ≡ true
    → staged r n p' ≡ true
unfolding call staged
staged-call r n [] p' e h = absurd (ground arith)
staged-call r n (wait ∷ es) p' e h = absurd (ground arith)
staged-call r n (sample k ∷ es) p' e h = ground arith
staged-call r n (extract k m ∷ es) p' e h = ground arith
staged-call r n (batch k s ∷ es) p' e h = ground arith
staged-call r n (fail ∷ es) p' e h = absurd (ground arith)

fits-advance :
    (rs : List Role) (n i : ℕ) (s t : System)
    → advance i s ≡ some t
    → fits rs n s ≡ true
    → fits rs n t ≡ true
unfolding advance fits
fits-advance rs n i [] t e h = absurd (ground arith)
fits-advance [] n i (p ∷ ps) t e h = absurd (ground arith)
fits-advance (r ∷ rs) n zero (p ∷ ps) t e h = elim (Option-cases (call p)) [
  | inl none_left ↦ absurd (ground arith)
  | inr (p', called) ↦ ground (arith, staged-call r n p p' called)
]
fits-advance (r ∷ rs) n (suc i) (p ∷ ps) t e h = elim (Option-cases (advance i ps)) [
  | inl none_left ↦ absurd (ground arith)
  | inr (ps', called) ↦ ground (arith, fits-advance rs n i ps ps' called (ground arith))
]

fits-release :
    (rs : List Role) (n : ℕ) (s t : System)
    → release s ≡ some t
    → fits rs n s ≡ true
    → fits rs (suc n) t ≡ true
unfolding release fits staged
fits-release [] n [] t e h = ground arith
fits-release (r ∷ rs) n [] t e h = absurd (ground arith)
fits-release [] n (p ∷ ps) t e h = absurd (ground arith)
fits-release (r ∷ rs) n ([] ∷ ps) t e h = absurd (ground arith)
fits-release (r ∷ rs) n ((wait ∷ es) ∷ ps) t e h = elim (Option-cases (release ps)) [
  | inl none_left ↦ absurd (ground arith)
  | inr (ps', released) ↦ ground (arith, fits-release rs n ps ps' released (ground arith))
]
fits-release (r ∷ rs) n ((sample k ∷ es) ∷ ps) t e h = absurd (ground arith)
fits-release (r ∷ rs) n ((extract k m ∷ es) ∷ ps) t e h = absurd (ground arith)
fits-release (r ∷ rs) n ((batch k m ∷ es) ∷ ps) t e h = absurd (ground arith)
fits-release (r ∷ rs) n ((fail ∷ es) ∷ ps) t e h = absurd (ground arith)

fits-Steps :
    (rs : List Role) (m : ℕ) (s t : System)
    → fits rs 0 s ≡ true
    → Steps m s t
    → (n : ℕ) × (fits rs n t ≡ true)
fits-Steps rs zero s t h stop = (0, h)
fits-Steps rs (suc m) s t h (step {t = u} before (go i e)) =
    let (n, hu) = fits-Steps rs m s u h before in (n, fits-advance rs n i u t e hu)
fits-Steps rs (suc m) s t h (step before (pass {p = p} {s = u} e)) =
    let (n, hu) = fits-Steps rs m s (p ∷ u) h before in (suc n, fits-release rs n (p ∷ u) t e hu)

fits-append :
    (rs rs' : List Role) (s t : System)
    → fits rs 0 s ≡ true
    → fits rs' 0 t ≡ true
    → fits (rs ++ rs') 0 (s ++ t) ≡ true
unfolding fits
fits-append [] rs' [] t h h' = h'
fits-append [] rs' (p ∷ s) t h h' = absurd (ground arith)
fits-append (r ∷ rs) rs' [] t h h' = absurd (ground arith)
fits-append (r ∷ rs) rs' (p ∷ s) t h h' = ground (arith, fits-append rs rs' s t)

fits-processes :
    (r : Role) (m : ℕ) (p : ℕ → List Event)
    → ((i : ℕ) → staged r 0 (p i) ≡ true)
    → fits (replicate m r) 0 (processes p m) ≡ true
unfolding fits processes
fits-processes r zero p h = refl
fits-processes r (suc m) p h = ground (arith, h m, fits-processes r m p h)

-- The process at a position in the list has the role at that position.
fits-at :
    (a b : Role) (k m n i : ℕ) (s : System) (p : List Event)
    → fits (replicate k a ++ replicate m b) n s ≡ true
    → get_elem? s i ≡ some p
    → ((i < k) × (staged a n p ≡ true)) ⊎ ((k ≤ i) × (staged b n p ≡ true))
unfolding fits
fits-at a b k m n i [] p h e = absurd (ground arith)
fits-at a b zero zero n i (q ∷ s) p h e = absurd (ground arith)
fits-at a b zero (suc m) n zero (q ∷ s) p h e = inr (ground arith)
fits-at a b zero (suc m) n (suc i) (q ∷ s) p h e =
    elim (fits-at a b zero m n i s p (ground arith) e) [
      | inl (lt, st) ↦ absurd (omega arith)
      | inr (le, st) ↦ inr (omega arith, st)
    ]
fits-at a b (suc k) m n zero (q ∷ s) p h e = inl (ground arith)
fits-at a b (suc k) m n (suc i) (q ∷ s) p h e = elim (fits-at a b k m n i s p (ground arith) e) [
  | inl (lt, st) ↦ inl (omega arith, st)
  | inr (le, st) ↦ inr (omega arith, st)
]

-- There is a call of sample_once for the epoch left.
unfoldable pub samples : ℕ → List Event → Bool
samples e [] = false
samples e (sample k ∷ es) = (k == e) || samples e es
samples e (wait ∷ es) = samples e es
samples e (extract k n ∷ es) = samples e es
samples e (batch k s ∷ es) = samples e es
samples e (fail ∷ es) = samples e es

samples-staged :
    (pipeline : Bool) (n e : ℕ) (es : List Event)
    → sample_stage pipeline e < n
    → staged (sampling pipeline) n es ≡ true
    → samples e es ≡ false
unfolding staged samples
samples-staged pipeline n e [] before h = refl
samples-staged pipeline n e (wait ∷ es) before h =
    samples-staged pipeline (suc n) e es (omega arith) h
samples-staged pipeline n e (sample k ∷ es) before h = elim (ℕ_discrete k e) [
  | yes same ↦ absurd (ground (arith, same))
  | no ne ↦ ground (arith, ne, samples-staged pipeline n e es before (ground arith))
]
samples-staged pipeline n e (extract k m ∷ es) before h = absurd (ground arith)
samples-staged pipeline n e (batch k s ∷ es) before h = absurd (ground arith)
samples-staged pipeline n e (fail ∷ es) before h =
    samples-staged pipeline n e es before (ground arith)

-- The epochs that must be sampled before the training of epoch e.
abbrev pub is_due : Bool → ℕ → ℕ → Bool
is_due pipeline e due = ltb due e || (not pipeline && (due == e))

is_due-before :
    (pipeline : Bool) (e due : ℕ)
    → is_due pipeline e due ≡ true
    → sample_stage pipeline due < train_stage e
is_due-before true e due h = ground arith
is_due-before false e due h = ground arith

module _ (pipeline single_gpu : Bool) (samplers trainers num_epoch num_step : ℕ) where
  abbrev roles : List Role
  roles = replicate samplers (sampling pipeline) ++ replicate trainers training

  fits-start : fits roles 0 (start pipeline single_gpu samplers trainers num_epoch num_step) ≡ true
  unfolding start
  fits-start =
      let stages = stages_lem pipeline single_gpu num_epoch num_step in
      fits-append _ _ _ _ (fits-processes _ samplers _ (λ i. (stages samplers i trainers 0).0))
        (fits-processes _ trainers _ (λ j. (stages samplers 0 trainers j).1))

  -- Whatever order the processes run in: when a process of run_train is about to get a batch of
  -- epoch e, no process of run_sample has a call of sample_once left for an earlier epoch, and
  -- without pipelining none for epoch e either. So without pipelining an epoch is trained only when
  -- all of it has been sampled.
  pub start_order :
      (n : ℕ) (s : System) (i j e k due : ℕ) (rest p : List Event)
      → Steps n (start pipeline single_gpu samplers trainers num_epoch num_step) s
      → get_elem? s i ≡ some (batch e k ∷ rest)
      → j < samplers
      → get_elem? s j ≡ some p
      → is_due pipeline e due ≡ true
      → samples due p ≡ false
  unfolding staged
  start_order n s i j e k due rest p steps at_i lt at_j d =
      let (m, f) = fits-Steps roles n _ s fits-start steps in
      elim (fits-at (sampling pipeline) training samplers trainers m i s _ f at_i) [
        | inl (_, st) ↦ absurd (ground arith)
        | inr (_, st) ↦
            elim (fits-at (sampling pipeline) training samplers trainers m j s p f at_j) [
              | inl (_, sj) ↦
                  samples-staged pipeline m due p (ground (arith, is_due-before pipeline e due d))
                    sj
              | inr (le, _) ↦ absurd (omega arith)
            ]
      ]
