-- ===== src/RunnerHelper/Doubles.antt =====
-- Python's floats, as far as exp/common/runner_helper.py computes with them: IEEE doubles from 0 to
-- below 2 ^ 53, rounded to the nearest and, between two, to the even one.
use fgnn_artifacts.Prelude.{
  ℕ, zero, suc, ◌+◌, ◌-◌, ◌*◌, ◌/◌, ◌%◌, ◌^◌, ◌≤◌, ◌≡◌, refl, Bool, true, false, ◌||◌, ltb, ◌==◌,
  if◌then◌else◌, each_below, each_below_elim, arith,
}

-- The double mantissa / 2 ^ shift.
pub record Double : Type 0 where
  pub mantissa : ℕ
  pub shift : ℕ

-- num / den, rounded to a whole number.
abbrev to_nearest : ℕ → ℕ → ℕ
to_nearest num den =
    let q = num / den in
    let r = num % den in
    if ltb (2 * r) den then q else (if ltb den (2 * r) then suc q else q + q % 2)

-- A mantissa has 53 bits. Below 2 ^ -1022 the shift stays at 1074 and the mantissa has fewer.
scaled : ℕ → ℕ → ℕ → ℕ → Double
scaled zero num den shift = record { mantissa = to_nearest num den; shift = shift }
scaled (suc rounds) num den shift = elim (ltb num (2 ^ 52 * den)) [
  | true ↦ scaled rounds (2 * num) den (suc shift)
  | false ↦ record { mantissa = to_nearest num den; shift = shift }
]

-- The double nearest to num / den, for den > 0 and a quotient below 2 ^ 53.
unfoldable pub nearest : ℕ → ℕ → Double
unfolding scaled
nearest num den = scaled 1074 num den 0

-- `x * n`
unfoldable pub times : Double → ℕ → Double
unfolding nearest
times x n = nearest (x.mantissa * n) (2 ^ x.shift)

-- `int(x)`
abbrev pub truncate : Double → ℕ
truncate x = x.mantissa / 2 ^ x.shift

tenth : nearest 1 10 ≡ record { mantissa = 0x1999999999999a; shift = 56 }
unfolding nearest
tenth = refl

-- `int(x * 100)` for the x nearest to i / 100.
unfoldable pub percent_of : ℕ → ℕ
unfolding times
percent_of i = truncate (times (nearest i 100) 100)

-- The percentages that come out one too small.
abbrev pub is_short : ℕ → Bool
is_short i = (i == 29) || ((i == 57) || (i == 58))

percents_below : each_below 101 (λ i. percent_of i == (if is_short i then i - 1 else i)) ≡ true
unfolding percent_of each_below
percents_below = refl

cc_lem : (i n : ℕ) → (percent_of i == n) ≡ true → percent_of i ≡ n
cc_lem i n h = ground arith

-- For each whole number i up to 100, `int((i / 100) * 100)` in floating-point arithmetic, the cache
-- rate that get_log_fname and beauty print, is i, except for 29, 57 and 58, where it is i - 1.
pub percent_of_lem : (i : ℕ) → i ≤ 100 → percent_of i ≡ (if is_short i then i - 1 else i)
percent_of_lem i le = cc_lem i _ (
    each_below_elim 101 (λ i. percent_of i == (if is_short i then i - 1 else i)) i percents_below
      (omega arith))
