-- ===== src/Workers/Shares.antt =====
-- The shares of the processes make up the epoch, and agree with the rounds of their loops.
use native.Mathlib.Nat.{div-add-mod', mod-lt, div-eq_of_lt-le}
use fgnn_artifacts.Prelude.{
  ℕ, zero, suc, ◌+◌, ◌-◌, ◌*◌, ◌/◌, ◌%◌, ◌≤◌, ◌<◌, ◌≡◌, inl, inr, refl, Bool-cases, ltb→lt, Bool,
  [], length, ltb, if◌then◌else◌, retain, arith,
}
use fgnn_artifacts.Workers.{
  sample_steps, need_steps, align_up_step, range_from, range, train_rounds, batches, total,
}

-- All processes but the last one.
total-sample_steps_below :
    (w num_step k : ℕ) → k ≤ w → total (sample_steps (suc w) num_step) k ≡ k * (num_step / suc w)
unfolding total sample_steps
total-sample_steps_below w num_step zero h = omega arith
total-sample_steps_below w num_step (suc k) h =
    ground (arith, total-sample_steps_below w num_step k (omega arith))

-- With at least one process, the numbers of steps of the processes of run_sample add up to the
-- epoch's steps, also where these are no multiple of the number of processes.
pub total-sample_steps :
    (num_worker num_step : ℕ)
    → 0 < num_worker
    → total (sample_steps num_worker num_step) num_worker ≡ num_step
unfolding total sample_steps
total-sample_steps zero num_step h = absurd (omega arith)
total-sample_steps (suc w) num_step h =
    let all : num_step / suc w * suc w + num_step % suc w ≡ num_step =
      div-add-mod' num_step (suc w) in
    ground (arith, total-sample_steps_below w num_step w (omega arith), all)

total-need_steps_below :
    (w num_step k : ℕ)
    → k ≤ suc w
    → total (need_steps (suc w) num_step) k
      ≡ k * (num_step / suc w) + (if ltb k (num_step % suc w) then k else num_step % suc w)
unfolding total need_steps
total-need_steps_below w num_step zero h = ground arith
total-need_steps_below w num_step (suc k) h =
    ground (arith, total-need_steps_below w num_step k (omega arith))

-- With at least one process, the numbers that the processes of run_train give to `extract_start` add
-- up to the epoch's steps.
pub total-need_steps :
    (num_worker num_step : ℕ)
    → 0 < num_worker
    → total (need_steps num_worker num_step) num_worker ≡ num_step
total-need_steps zero num_step h = absurd (omega arith)
total-need_steps (suc w) num_step h =
    let all : num_step / suc w * suc w + num_step % suc w ≡ num_step =
      div-add-mod' num_step (suc w) in
    let small : num_step % suc w < suc w = mod-lt num_step h in
    ground (arith, total-need_steps_below w num_step (suc w) (omega arith), all, small)

module _ (num_step step : ℕ) where
  abbrev below : ℕ → Bool
  below s = ltb s num_step

  none_below :
      (rounds first : ℕ) → num_step ≤ first → retain below (range_from rounds first step) ≡ []
  unfolding range_from
  none_below zero first h = refl
  none_below (suc rounds) first h = ground (arith, none_below rounds (first + step) (omega arith))

  count_below :
      (k rounds first : ℕ)
      → k ≤ rounds
      → first + k * step < num_step + step
      → num_step ≤ first + k * step
      → length (retain below (range_from rounds first step)) ≡ k
  unfolding range_from
  count_below zero rounds first h near far = rw (none_below rounds first (omega (arith, far))) refl
  count_below (suc k) zero first h near far = absurd (omega arith)
  count_below (suc k) (suc rounds) first h near far =
      let head : first < num_step = omega (arith, near) in
      ground (
        arith,
        head,
        count_below k rounds (first + step) (omega arith) (omega (arith, near))
            (omega (arith, far)),
      )

-- The number of rounds of each process: the quotient, rounded up.
abbrev pub num_rounds : ℕ → ℕ → ℕ
num_rounds num_worker num_step = (num_step + num_worker - 1) / num_worker

length-range_from : (rounds first step : ℕ) → length (range_from rounds first step) ≡ rounds
unfolding range_from
length-range_from zero first step = refl
length-range_from (suc rounds) first step =
    ground (arith, length-range_from rounds (first + step) step)

rounds_of :
    (w m worker_id : ℕ) → worker_id < suc w → (m * suc w - worker_id + (suc w - 1)) / suc w ≡ m
rounds_of w zero worker_id h = div-eq_of_lt-le {k = 0} (suc w) (omega arith) (omega arith)
rounds_of w (suc m) worker_id h = div-eq_of_lt-le {k = suc m} (suc w) (omega arith) (omega arith)

pub train_rounds_lem :
    (w num_step worker_id : ℕ)
    → worker_id < suc w
    → train_rounds (suc w) num_step worker_id
      ≡ range_from (num_rounds (suc w) num_step) worker_id (suc w)
unfolding train_rounds range align_up_step
train_rounds_lem w num_step worker_id h =
    rw (rounds_of w (num_rounds (suc w) num_step) worker_id h) refl

-- All processes of run_train, numbered below the number of processes, do the same number of rounds
-- in an epoch, the number of steps per process rounded up.
pub length-train_rounds :
    (num_worker num_step worker_id : ℕ)
    → worker_id < num_worker
    → length (train_rounds num_worker num_step worker_id) ≡ num_rounds num_worker num_step
length-train_rounds zero num_step worker_id h = absurd (omega arith)
length-train_rounds (suc w) num_step worker_id h =
    rw (train_rounds_lem w num_step worker_id h) (length-range_from _ worker_id (suc w))

-- What the quotients of a positive divisor are, by whether it divides.
pub num_rounds_lem :
    (w num_step : ℕ)
    → num_rounds (suc w) num_step
      ≡ (if ltb 0 (num_step % suc w) then num_step / suc w + 1 else num_step / suc w)
num_rounds_lem w num_step =
    let all : num_step / suc w * suc w + num_step % suc w ≡ num_step =
      div-add-mod' num_step (suc w) in
    let small : num_step % suc w < suc w = mod-lt num_step (omega arith) in
    elim (Bool-cases (ltb 0 (num_step % suc w))) [
      | inl e ↦ rw e (
          div-eq_of_lt-le {k = num_step / suc w + 1} (suc w)
            (omega (arith, all, small, ltb→lt 0 (num_step % suc w) e)) (omega (arith, all, small)))
      | inr e ↦
          let none_left : num_step % suc w ≡ 0 = ground (arith, e) in
          rw e (
            div-eq_of_lt-le {k = num_step / suc w} (suc w) (omega (arith, all, small, none_left))
              (omega (arith, all, small, none_left)))
    ]

-- Each process of run_train, numbered below the number of processes, gets as many batches in an epoch
-- as the number that it gives to `extract_start` when it calls that.
pub length-batches :
    (num_worker num_step worker_id : ℕ)
    → worker_id < num_worker
    → length (batches num_worker num_step worker_id) ≡ need_steps num_worker num_step worker_id
unfolding batches need_steps
length-batches zero num_step worker_id h = absurd (omega arith)
length-batches (suc w) num_step worker_id h =
    let all : num_step / suc w * suc w + num_step % suc w ≡ num_step =
      div-add-mod' num_step (suc w) in
    let small : num_step % suc w < suc w = mod-lt num_step (omega arith) in
    let m = num_rounds (suc w) num_step in
    let q = num_step / suc w in
    rw (train_rounds_lem w num_step worker_id h)
      (elim (Bool-cases (ltb worker_id (num_step % suc w))) [
        | inl e ↦
            let more : worker_id < num_step % suc w = ltb→lt worker_id (num_step % suc w) e in
            rw e (
              count_below num_step (suc w) (q + 1) m worker_id
                (ground (arith, num_rounds_lem w num_step, more)) (omega (arith, all, more))
                (omega (arith, all, small, more)))
        | inr e ↦
            let rest : num_step % suc w ≤ worker_id = ground (arith, e) in
            rw e (
              count_below num_step (suc w) q m worker_id (ground (arith, num_rounds_lem w num_step))
                (omega (arith, all, rest, h)) (omega (arith, all, small, rest)))
      ])
