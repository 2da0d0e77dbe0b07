-- ===== src/Prelude/Ranges.antt =====
-- Boolean tests of all the numbers below a bound.
use Prim.Native.Nat.{ℕ, zero, suc, ◌<◌}
use mathlib.Core.Path.{◌≡◌, refl, ap}
use mathlib.Core.Bool.{Bool, true, ◌&&◌}
use native.Mathlib.Omega.{arith}
use native.Mathlib.Decide.{ℕ_discrete}

unfoldable pub each_below : ℕ → (ℕ → Bool) → Bool
each_below zero p = true
each_below (suc n) p = p n && each_below n p

pub each_below_elim : (n : ℕ) (p : ℕ → Bool) (i : ℕ) → each_below n p ≡ true → i < n → p i ≡ true
unfolding each_below
each_below_elim zero p i h lt = absurd (omega arith)
each_below_elim (suc n) p i h lt = elim (ℕ_discrete i n) [
  | yes e ↦ ground (arith, ap p e)
  | no ne ↦ each_below_elim n p i (ground arith) (omega arith)
]

pub each_below_intro :
    (n : ℕ) (p : ℕ → Bool) → ((i : ℕ) → i < n → p i ≡ true) → each_below n p ≡ true
unfolding each_below
each_below_intro zero p h = refl
each_below_intro (suc n) p h =
    ground (arith, h n (omega arith), each_below_intro n p (λ i lt. h i (omega arith)))
