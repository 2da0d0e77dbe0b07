-- ===== src/Prelude/Text/Decimal.antt =====
-- `str(n)` of a natural number, and `int(s)` of an ASCII text.
pub mod RoundTrip
use Prim.Native.Nat.{ℕ, zero, suc, ◌+◌, ◌-◌, ◌*◌, ◌/◌, ◌%◌, ◌≤◌, ◌<◌}
use Prim.Native.Char.{Char, code}
use Prim.Native.String.{String, ◌++◌}
use mathlib.Core.Path.{◌≡◌, refl, ◌∙◌}
use mathlib.Core.Logic.{ite, dite}
use mathlib.Core.Bool.{Bool, true, false, ◌&&◌, ◌||◌}
use mathlib.Core.Option.{Option, none, some}
use mathlib.Core.WellFounded
use mathlib.Core.WellFounded.{Acc, WellFounded, Acc-prop}
use native.Mathlib.Decide.{dec_lt}
use native.Mathlib.Omega.{arith}
use fgnn_artifacts.Prelude.Tests.{◌==◌, ltb, leb, if◌then◌else◌}
use fgnn_artifacts.Prelude.Text.Basic.{Avoids}

Acc-below : (k n : ℕ) → n < k → Acc ◌<◌ n
Acc-below zero n h = elim h [ ]
Acc-below (suc k) n h = Acc.intro n (λ m lt. Acc-below k m (omega arith))

lt_wf : WellFounded ◌<◌
unfolding Acc-below
lt_wf = record { apply = λ n. Acc-below (suc n) n (omega arith) }

digit_char : ℕ → Char
digit_char zero = "0"
digit_char (suc zero) = "1"
digit_char (suc (suc zero)) = "2"
digit_char (suc (suc (suc zero))) = "3"
digit_char (suc (suc (suc (suc zero)))) = "4"
digit_char (suc (suc (suc (suc (suc zero))))) = "5"
digit_char (suc (suc (suc (suc (suc (suc zero)))))) = "6"
digit_char (suc (suc (suc (suc (suc (suc (suc zero))))))) = "7"
digit_char (suc (suc (suc (suc (suc (suc (suc (suc zero)))))))) = "8"
digit_char _ = "9"

tenth_lt : {n : ℕ} → 10 ≤ n → n / 10 < n
tenth_lt h = omega arith

-- The digits of `n` in front of a text.
put_digits : (n : ℕ) → Acc ◌<◌ n → String → String
put_digits n (Acc.intro _ smaller) out =
    dite (dec_lt n 10) (λ _. String.◌∷◌ (digit_char n) out)
      (λ h.
        put_digits (n / 10) (smaller (n / 10) (tenth_lt (omega arith)))
          (String.◌∷◌ (digit_char (n % 10)) out))

digits_before : ℕ → String → String
unfolding put_digits lt_wf dec_lt digit_char tenth_lt
digits_before n out = put_digits n (lt_wf.apply n) out

-- `str(n)`
unfoldable pub show : ℕ → String
unfolding digits_before
show n = digits_before n ""

is_digit : ℕ → Bool
is_digit c = leb b'0' c && leb c b'9'

-- The digits of an integer literal, with a single `_` allowed between two of them.
int_digits : String → Bool → ℕ → Option ℕ
unfolding is_digit
int_digits String.[] after_digit n = if after_digit then some n else none
int_digits (String.◌∷◌ c s) after_digit n =
    let d = is_digit (code c) in
    if d || ((code c == b'_') && after_digit)
    then int_digits s d (if d then n * 10 + (code c - b'0') else n)
    else none

is_space : ℕ → Bool
is_space c = (c == 32) || ((leb 9 c && leb c 13) || (leb 28 c && leb c 31))

-- `s.strip()`, from the left, and what is blank to the end.
all_space : String → Bool
unfolding is_space
all_space String.[] = true
all_space (String.◌∷◌ c s) = is_space (code c) && all_space s

strip_right : String → String
unfolding all_space
strip_right String.[] = String.[]
strip_right (String.◌∷◌ c s) =
    if all_space (String.◌∷◌ c s) then String.[] else String.◌∷◌ c (strip_right s)

unfoldable pub strip : String → String
unfolding strip_right is_space
strip String.[] = String.[]
strip (String.◌∷◌ c s) = if is_space (code c) then strip s else strip_right (String.◌∷◌ c s)

-- A sign (true for minus) and a magnitude.
int_signed : String → Option (Bool × ℕ)
unfolding int_digits
int_signed String.[] = none
int_signed (String.◌∷◌ c s) =
    if code c == b'-'
    then elim (int_digits s false 0) [ none ↦ none | some n ↦ some (true, n) ]
    else elim (int_digits (if code c == b'+' then s else String.◌∷◌ c s) false 0) [
      | none ↦ none
      | some n ↦ some (false, n)
    ]

-- `int(s)`; `none` is a `ValueError`.
unfoldable pub parse_int : String → Option (Bool × ℕ)
unfolding int_signed strip
parse_int s = int_signed (strip s)

show_runs : show 10460 ≡ "10460"
unfolding show
show_runs = refl

parse_int_runs :
    (parse_int " 1_0\n" ≡ some (false, 10))
    × (parse_int "-3" ≡ some (true, 3))
    × (parse_int "1__0" ≡ none)
    × (parse_int "" ≡ none)
    × (parse_int "x" ≡ none)
unfolding parse_int
parse_int_runs = (refl, refl, refl, refl, refl)
