-- ===== src/Workers/Cover.antt =====
-- Each step of an epoch is a batch of exactly one process of run_train.
use native.Mathlib.Nat.{
  mod-eq-sub-mod, mod-eq_of_lt, mod-lt, zero-mod, div-add-mod', mul-mod_left,
  add-mul-mod_self_right,
}
use fgnn_artifacts.Prelude.{
  ℕ, zero, suc, ◌+◌, ◌-◌, ◌*◌, ◌/◌, ◌%◌, ◌≤◌, ◌<◌, ◌≡◌, ◌∙◌, Bool, false, ◌&&◌, ◌||◌, List, [], ◌∷◌,
  ltb, leb, ◌==◌, retain, arith, ap, ℕ_discrete, dec_lt,
}
use fgnn_artifacts.Workers.{range_from, batches}
use fgnn_artifacts.Workers.Shares.{num_rounds, train_rounds_lem}

abbrev pub is_in : ℕ → List ℕ → Bool
is_in s [] = false
is_in s (x ∷ xs) = (s == x) || is_in s xs

is_in-retain : (p : ℕ → Bool) (s : ℕ) (xs : List ℕ) → is_in s (retain p xs) ≡ p s && is_in s xs
is_in-retain p s [] = ground arith
is_in-retain p s (x ∷ xs) = elim (ℕ_discrete s x) [
  | yes e ↦ ground (arith, ap p e, is_in-retain p s xs)
  | no ne ↦ ground (arith, is_in-retain p s xs)
]

is_in-range_from :
    (rounds w first s : ℕ)
    → is_in s (range_from rounds first (suc w))
      ≡ (leb first s && (ltb s (first + rounds * suc w) && (s - first) % suc w == 0))
unfolding range_from
is_in-range_from zero w first s = ground arith
is_in-range_from (suc rounds) w first s =
    let rest = is_in-range_from rounds w (first + suc w) s in
    elim (dec_lt s first) [
      | yes before ↦ ground (arith, rest)
      | no since ↦ elim (ℕ_discrete s first) [
        | yes e ↦
            let none_left : (s - first) % suc w ≡ 0 =
              ap (λ n. n % suc w) (omega arith) ∙ zero-mod (suc w) in
            ground (arith, rest, none_left)
        | no ne ↦ elim (dec_lt s (first + suc w)) [
          | yes near ↦
              let left : (s - first) % suc w ≡ s - first = mod-eq_of_lt (omega arith) in
              ground (arith, rest, left)
          | no far ↦
              let less : s - first - suc w ≡ s - (first + suc w) = omega arith in
              let same : (s - first) % suc w ≡ (s - (first + suc w)) % suc w =
                mod-eq-sub-mod (omega arith) ∙ ap (λ n. n % suc w) less in
              ground (arith, rest, same)
        ]
      ]
    ]

remainder_lem :
    (w worker_id s : ℕ)
    → worker_id < suc w
    → (leb worker_id s && (s - worker_id) % suc w == 0) ≡ s % suc w == worker_id
remainder_lem w worker_id s h =
    let all : s / suc w * suc w + s % suc w ≡ s = div-add-mod' s (suc w) in
    elim (ℕ_discrete (s % suc w) worker_id) [
      | yes e ↦
          let multiple : s - worker_id ≡ s / suc w * suc w = omega arith in
          let none_left : (s - worker_id) % suc w ≡ 0 =
            ap (λ n. n % suc w) multiple ∙ mul-mod_left (s / suc w) (suc w) in
          ground (arith, all, e, none_left)
      | no ne ↦ elim (dec_lt s worker_id) [
        | yes small ↦ ground arith
        | no large ↦ elim (ℕ_discrete ((s - worker_id) % suc w) 0) [
          | yes e ↦
              let t = (s - worker_id) / suc w in
              let parts : t * suc w + (s - worker_id) % suc w ≡ s - worker_id =
                div-add-mod' (s - worker_id) (suc w) in
              let split : s ≡ worker_id + t * suc w = omega (arith, parts, e, large) in
              absurd (
                ne (
                  ap (λ n. n % suc w) split
                  ∙ add-mul-mod_self_right worker_id t (suc w)
                  ∙ mod-eq_of_lt h))
          | no left ↦ ground arith
        ]
      ]
    ]

-- For a process of run_train, numbered below the number of processes: a step is one of its batches
-- exactly if it is a step of the epoch and its remainder by the number of processes is the number
-- of the process. So each step is a batch of one process and no other.
pub is_in-batches :
    (num_worker num_step worker_id s : ℕ)
    → worker_id < num_worker
    → is_in s (batches num_worker num_step worker_id)
      ≡ (ltb s num_step && s % num_worker == worker_id)
unfolding batches
is_in-batches zero num_step worker_id s h = absurd (omega arith)
is_in-batches (suc w) num_step worker_id s h =
    let enough : num_step ≤ num_rounds (suc w) num_step * suc w = omega (
      arith,
      div-add-mod' (num_step + suc w - 1) (suc w),
      mod-lt (num_step + suc w - 1) {m = suc w} (omega arith),
    ) in
    rw
      (
        train_rounds_lem w num_step worker_id h,
        is_in-retain,
        is_in-range_from (num_rounds (suc w) num_step) w worker_id s,
      )
      (ground (arith, remainder_lem w worker_id s h, enough))
