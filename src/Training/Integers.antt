-- ===== src/Training/Integers.antt =====
-- Python's `int`, with what example/samgraph/common_config.py uses of it.
use fgnn_artifacts.Prelude.{
  ℕ, zero, suc, ◌+◌, ◌/◌, ◌<◌, ◌≡◌, refl, Bool, true, false, ltb, Result, ok, raise,
  zero_division_error, arith,
}

-- `negsuc n` is -(n + 1).
pub data ℤ : Type 0 where
  pos : ℕ → ℤ
  negsuc : ℕ → ℤ

-- `z > 0`
abbrev pub is_positive : ℤ → Bool
is_positive (pos n) = ltb 0 n
is_positive (negsuc n) = false

-- `z != 0`
abbrev pub is_nonzero : ℤ → Bool
is_nonzero (pos n) = ltb 0 n
is_nonzero (negsuc n) = true

-- `z >= 0`
abbrev pub is_natural : ℤ → Bool
is_natural (pos n) = true
is_natural (negsuc n) = false

-- The length of `range(z)`.
abbrev pub natural : ℤ → ℕ
natural (pos n) = n
natural (negsuc n) = 0

abbrev negated : ℕ → ℤ
negated zero = pos 0
negated (suc n) = negsuc n

-- `y // z`, which rounds down.
unfoldable pub divided : ℤ → ℤ → Result ℤ
divided y (pos zero) = raise zero_division_error
divided (pos m) (pos (suc n)) = ok (pos (m / suc n))
divided (negsuc m) (pos (suc n)) = ok (negsuc (m / suc n))
divided (pos m) (negsuc n) = ok (negated ((m + n) / suc n))
divided (negsuc m) (negsuc n) = ok (pos (suc m / suc n))

pub natural-is_positive : (z : ℤ) → is_positive z ≡ true → (pos (natural z) ≡ z) × (0 < natural z)
natural-is_positive (pos n) h = (refl, ground arith)
natural-is_positive (negsuc n) h = absurd (ground arith)

-- 40 // -3 and -7 // 2
rounds_down :
    (divided (pos 40) (negsuc 2) ≡ ok (negsuc 13)) × (divided (negsuc 6) (pos 2) ≡ ok (negsuc 3))
unfolding divided
rounds_down = (refl, refl)
