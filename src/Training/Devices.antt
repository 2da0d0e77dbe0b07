-- ===== src/Training/Devices.antt =====
-- Which device each process of a multi-GPU training gets from process_common_config.
use text.Mathlib.TextLemmas
use fgnn_artifacts.Prelude.{
  ℕ, zero, suc, ◌+◌, ◌<◌, ◌≡◌, refl, ap, sym, ◌∙◌, true, false, Option-cases, Bool-cases, ◌⊎◌,
  occurs, repeated, inl, inr, [], ◌∷◌, ◌++◌, length, ok, arith, Result-cases,
}
use fgnn_artifacts.Prelude.Dict.{lookup}
use fgnn_artifacts.Prelude.Text.Decimal.RoundTrip.{show-injective}
use fgnn_artifacts.Training.Integers.{pos, is_positive, natural, natural-is_positive, divided}
use fgnn_artifacts.Training.Constants.{gpu, BuiltinArch, builtin_archs}
use fgnn_artifacts.Training.Config.{
  fgnn, RunConfig, process_mode, process_common_config, started, finish, gpus,
}

gpu-injective : (i j : ℕ) → gpu i ≡ gpu j → i ≡ j
gpu-injective i j e = show-injective i j (TextLemmas.append_cancel_left "cuda:" _ _ e)

length-gpus : (start count : ℕ) → length (gpus start count) ≡ count
unfolding gpus
length-gpus start zero = refl
length-gpus start (suc count) = ap suc (length-gpus (suc start) count)

gpus-append : (start m n : ℕ) → gpus start m ++ gpus (start + m) n ≡ gpus start (m + n)
unfolding gpus
gpus-append start zero n =
    let same : start + 0 ≡ start = omega arith in
    let none_more : 0 + n ≡ n = omega arith in rw (same, none_more) refl
gpus-append start (suc m) n =
    let same : start + suc m ≡ suc start + m = omega arith in
    let more : suc m + n ≡ suc (m + n) = omega arith in
    rw (same, more) (ap (λ l. gpu start ∷ l) (gpus-append (suc start) m n))

append_from_0 : (m n : ℕ) → gpus 0 m ++ gpus m n ≡ gpus 0 (m + n)
append_from_0 m n =
    let from : 0 + m ≡ m = omega arith in
    sym (ap (λ k. gpus 0 m ++ gpus k n) from) ∙ gpus-append 0 m n

occurs-gpus : (i start count : ℕ) → i < start → occurs (gpu i) (gpus start count) ≡ false
unfolding gpus
occurs-gpus i start zero lt = refl
occurs-gpus i start (suc count) lt =
    ground (arith, gpu-injective i start, occurs-gpus i (suc start) count (omega arith))

repeated-gpus : (start count : ℕ) → repeated (gpus start count) ≡ 0
unfolding gpus
repeated-gpus start zero = refl
repeated-gpus start (suc count) =
    ground
      (arith, occurs-gpus start (suc start) count (omega arith), repeated-gpus (suc start) count)

-- The numbers of processes and their devices.
abbrev KeepsWorkers : RunConfig → RunConfig → Type 0
KeepsWorkers c c' =
    (c'.num_train_worker ≡ c.num_train_worker)
    × (c'.num_sample_worker ≡ c.num_sample_worker)
    × (c'.train_workers ≡ c.train_workers)
    × (c'.sample_workers ≡ c.sample_workers)

finish_keeps : (c c' : RunConfig) → finish c ≡ ok c' → KeepsWorkers c c'
unfolding finish
finish_keeps c c' h = ground arith

abbrev Shared : RunConfig → Type 0
Shared c = (c.train_workers ≡ gpu 0 ∷ []) × (c.sample_workers ≡ gpu 0 ∷ [])

abbrev Apart : RunConfig → RunConfig → Type 0
Apart c c' =
    (c'.num_train_worker ≡ c.num_train_worker)
    × (c'.num_sample_worker ≡ c.num_sample_worker)
    × (c'.train_workers ≡ gpus 0 (natural c.num_train_worker))
    × (c'.sample_workers ≡ gpus (natural c.num_train_worker) (natural c.num_sample_worker))

process_mode-Apart :
    (threads : ℕ) (b : BuiltinArch) (c c' : RunConfig)
    → c.run_mode ≡ fgnn
    → c.single_gpu ≡ false
    → process_mode threads b c ≡ ok c'
    → Apart c c'
unfolding process_mode divided
process_mode-Apart threads b c c' mode many h = ground arith

process_mode-Shared :
    (threads : ℕ) (b : BuiltinArch) (c c' : RunConfig)
    → c.run_mode ≡ fgnn
    → c.single_gpu ≡ true
    → process_mode threads b c ≡ ok c'
    → (c'.num_train_worker ≡ pos 1) × (c'.num_sample_worker ≡ pos 1) × Shared c'
unfolding process_mode divided
process_mode-Shared threads b c c' mode one h = ground arith

-- The processes have devices of their own.
abbrev Separate : RunConfig → Type 0
Separate c = repeated (c.train_workers ++ c.sample_workers) ≡ 0

-- Every process of either kind has a device.
abbrev EachHasOne : RunConfig → Type 0
EachHasOne c =
    (pos (length c.train_workers) ≡ c.num_train_worker)
    × (pos (length c.sample_workers) ≡ c.num_sample_worker)
    × (0 < length c.train_workers)
    × (0 < length c.sample_workers)

pub Assigned : RunConfig → RunConfig → Type 0
Assigned c c' =
    EachHasOne c' × (((c.single_gpu ≡ false) × Separate c') ⊎ ((c.single_gpu ≡ true) × Shared c'))

process_mode_positive :
    (threads : ℕ) (b : BuiltinArch) (c c' : RunConfig)
    → c.run_mode ≡ fgnn
    → process_mode threads b c ≡ ok c'
    → (is_positive c.num_train_worker ≡ true) × (is_positive c.num_sample_worker ≡ true)
unfolding process_mode divided
process_mode_positive threads b c c' mode h = ground arith

process_mode_devices :
    (threads : ℕ) (b : BuiltinArch) (c c' : RunConfig)
    → c.run_mode ≡ fgnn
    → process_mode threads b c ≡ ok c'
    → Assigned c c'
unfolding Assigned
process_mode_devices threads b c c' mode h = elim (Bool-cases c.single_gpu) [
  | inl one ↦
      let (train, sample, (ts, ss)) = process_mode-Shared threads b c c' mode one h in
      (
        (rw (ts, train) refl, rw (ss, sample) refl, rw ts (omega arith), rw ss (omega arith)),
        inr (one, (ts, ss)),
      )
  | inr many ↦
      let (train, sample, ts, ss) = process_mode-Apart threads b c c' mode many h in
      let (pt, ps) = process_mode_positive threads b c c' mode h in
      let (same_t, some_t) = natural-is_positive c.num_train_worker pt in
      let (same_s, some_s) = natural-is_positive c.num_sample_worker ps in
      let none_twice : Separate c' =
        rw (ts, ss, append_from_0 (natural c.num_train_worker) (natural c.num_sample_worker))
          (repeated-gpus 0 _) in
      (
        (
          rw (ts, train, length-gpus 0 (natural c.num_train_worker)) same_t,
          rw (ss, sample, length-gpus (natural c.num_train_worker) (natural c.num_sample_worker))
              same_s,
          rw (ts, length-gpus 0 (natural c.num_train_worker)) some_t,
          rw (ss, length-gpus (natural c.num_train_worker) (natural c.num_sample_worker)) some_s,
        ),
        inl (many, none_twice),
      )
]

-- Where process_common_config returns for a training of separate sampling and training processes
-- (run mode FGNN), there is a positive number of each kind, and each process has a device; the
-- devices of all the processes are different from one another, unless a single GPU was asked for,
-- and then there is one process of each kind and both have the first device.
pub process_common_config-devices :
    (threads : ℕ) (c c' : RunConfig)
    → c.run_mode ≡ fgnn
    → process_common_config threads c ≡ ok c'
    → Assigned c c'
unfolding process_common_config Assigned
process_common_config-devices threads c c' mode h =
    elim (Option-cases (lookup c.arch builtin_archs)) [
      | inl unknown ↦ absurd (ground (arith, unknown))
      | inr (b, known) ↦ elim (Result-cases (process_mode threads b (started b c))) [
        | inr (e, raised) ↦ absurd (ground (arith, known, raised))
        | inl (c₁, made) ↦
            let finished : finish c₁ ≡ ok c' = ground (arith, known, made) in
            let (nt, ns, tw, sw) = finish_keeps c₁ c' finished in
            let assigned = process_mode_devices threads b (started b c) c₁ mode made in
            rw (nt, ns, tw, sw) assigned
      ]
    ]
