-- ===== src/RunnerHelper/Sweeps.antt =====
-- percent_gen of exp/common/runner_helper.py.
use native.Mathlib.Nat.{le-div_iff_mul-le}
use fgnn_artifacts.Prelude.{
  ℕ, zero, suc, ◌+◌, ◌-◌, ◌*◌, ◌/◌, ◌<◌, ◌≡◌, refl, none, some, get_elem?, ltb, leb, if◌then◌else◌,
  arith,
}
use fgnn_artifacts.RunnerHelper.RunConfig.{part}
use fgnn_artifacts.RunnerHelper.ConfigList.{percents_from, percent_gen}

get_elem?-percents_from :
    (rounds i gap k : ℕ)
    → get_elem? (percents_from rounds i gap) k
      ≡ (if ltb k rounds then some (part (i + k * gap)) else none)
unfolding percents_from
get_elem?-percents_from zero i gap k = ground arith
get_elem?-percents_from (suc rounds) i gap zero = ground arith
get_elem?-percents_from (suc rounds) i gap (suc k) =
    ground (arith, get_elem?-percents_from rounds (i + gap) gap k)

rounds_lem : (lb ub gap k : ℕ) → 0 < gap → ltb k ((ub + gap - lb) / gap) ≡ leb (lb + k * gap) ub
rounds_lem lb ub gap k pos =
    let (there, back) = le-div_iff_mul-le {k = gap} {x = suc k} {y = ub + gap - lb} pos in
    ground (arith, there, back)

-- For a positive gap, the items of percent_gen(lb, ub, gap) are the hundredths lb, lb + gap, lb + 2 *
-- gap and so on that are not above ub, in this order: the item k is lb + k * gap, if that is at
-- most ub, and there is no item k otherwise.
pub get_elem?-percent_gen :
    (lb ub gap k : ℕ)
    → 0 < gap
    → get_elem? (percent_gen lb ub gap) k
      ≡ (if leb (lb + k * gap) ub then some (part (lb + k * gap)) else none)
unfolding percent_gen
get_elem?-percent_gen lb ub gap k pos =
    rw (get_elem?-percents_from ((ub + gap - lb) / gap) lb gap k, rounds_lem lb ub gap k pos) refl
