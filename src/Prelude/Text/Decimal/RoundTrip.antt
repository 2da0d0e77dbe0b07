-- ===== src/Prelude/Text/Decimal/RoundTrip.antt =====
-- The decimal print of a natural number is read back by `int`.
use Prim.Native.Nat.{ℕ, zero, suc, ◌+◌, ◌*◌, ◌/◌, ◌%◌, ◌≤◌, ◌<◌}
use Prim.Native.Char.{Char, code}
use Prim.Native.String.{String}
use mathlib.Core.Path.{◌≡◌, refl, sym, ap, ◌∙◌, subst}
use mathlib.Core.Logic.{◌⊎◌, ite, dite, if_pos, if_neg}
use mathlib.Core.Bool.{Bool, true, false}
use mathlib.Core.Option
use mathlib.Core.Option.{Option, none, some, some-injective}
use mathlib.Core.WellFounded
use mathlib.Core.WellFounded.{Acc, Acc-prop}
use native.Mathlib.Decide.{dec_lt}
use native.Mathlib.Omega.{arith}
use fgnn_artifacts.Prelude.Text.Basic.{Avoids}
use fgnn_artifacts.Prelude.Text.Decimal.{
  lt_wf, digit_char, tenth_lt, put_digits, digits_before, show, is_digit, int_digits, is_space,
  all_space, strip_right, strip, int_signed, parse_int,
}

code-digit_char : (d : ℕ) → d < 10 → code (digit_char d) ≡ b'0' + d
unfolding digit_char
code-digit_char zero h = refl
code-digit_char (suc zero) h = refl
code-digit_char (suc (suc zero)) h = refl
code-digit_char (suc (suc (suc zero))) h = refl
code-digit_char (suc (suc (suc (suc zero)))) h = refl
code-digit_char (suc (suc (suc (suc (suc zero))))) h = refl
code-digit_char (suc (suc (suc (suc (suc (suc zero)))))) h = refl
code-digit_char (suc (suc (suc (suc (suc (suc (suc zero))))))) h = refl
code-digit_char (suc (suc (suc (suc (suc (suc (suc (suc zero)))))))) h = refl
code-digit_char (suc (suc (suc (suc (suc (suc (suc (suc (suc zero))))))))) h = refl
code-digit_char (suc (suc (suc (suc (suc (suc (suc (suc (suc (suc d)))))))))) h =
    absurd (omega arith)

put_digits_step :
    (n : ℕ) (w : Acc ◌<◌ n) (w' : Acc ◌<◌ (n / 10)) (out : String)
    → put_digits n w out
      ≡ ite
          (dec_lt n 10)
          (String.◌∷◌ (digit_char n) out)
          (put_digits (n / 10) w' (String.◌∷◌ (digit_char (n % 10)) out))
unfolding put_digits
put_digits_step n (Acc.intro _ smaller) w' out = λ i.
    dite (dec_lt n 10) (λ _. String.◌∷◌ (digit_char n) out)
      (λ h.
        put_digits (n / 10) (Acc-prop (smaller (n / 10) (tenth_lt (omega arith))) w' i)
          (String.◌∷◌ (digit_char (n % 10)) out))

digits_step :
    (n : ℕ) (out : String)
    → digits_before n out
      ≡ ite
          (dec_lt n 10)
          (String.◌∷◌ (digit_char n) out)
          (digits_before (n / 10) (String.◌∷◌ (digit_char (n % 10)) out))
unfolding digits_before
digits_step n out = put_digits_step n (lt_wf.apply n) (lt_wf.apply (n / 10)) out

-- Reading one printed digit.
int_digits-digit :
    (d n : ℕ) (b : Bool) (out : String)
    → d < 10
    → int_digits (String.◌∷◌ (digit_char d) out) b n ≡ int_digits out true (n * 10 + d)
unfolding int_digits is_digit
int_digits-digit d n b out h = ground (arith, code-digit_char d h)

module _ (m : ℕ) (b : Bool) (out : String) where
  int_digits_small : m < 10 → int_digits (digits_before m out) b 0 ≡ int_digits out true m
  int_digits_small p =
      rw (digits_step m out, if_pos (dec_lt m 10) p, int_digits-digit m 0 b out p)
        (ap (int_digits out true) (omega arith))

  int_digits_large :
      ¬ (m < 10)
      → int_digits (digits_before (m / 10) (String.◌∷◌ (digit_char (m % 10)) out)) b 0
        ≡ int_digits (String.◌∷◌ (digit_char (m % 10)) out) true (m / 10)
      → int_digits (digits_before m out) b 0 ≡ int_digits out true m
  int_digits_large p ih =
      rw
        (
          digits_step m out,
          if_neg (dec_lt m 10) p,
          ih,
          int_digits-digit (m % 10) (m / 10) true out (omega arith),
        )
        (ap (int_digits out true) (omega arith))

int_digits-digits_before :
    (n : ℕ) (b : Bool) (out : String) → int_digits (digits_before n out) b 0 ≡ int_digits out true n
int_digits-digits_before n =
    WellFounded.induction lt_wf
      {C = λ m.
        (b : Bool) (out : String) → int_digits (digits_before m out) b 0 ≡ int_digits out true m}
      n
      λ m ih b out. elim (dec_lt m 10) [
        | yes p ↦ int_digits_small m b out p
        | no p ↦ int_digits_large m b out p (ih (m / 10) (omega arith) b _)
      ]

-- The characters of a text are decimal digits.
abbrev pub AllDigits : String → Type 0
AllDigits String.[] = Unit
AllDigits (String.◌∷◌ c s) = (b'0' ≤ code c) × (code c ≤ b'9') × AllDigits s

module _ (d : ℕ) (out : String) (h : d < 10) (digits : AllDigits out) where
  AllDigits-digit : AllDigits (String.◌∷◌ (digit_char d) out)
  AllDigits-digit = (omega (arith, code-digit_char d h), omega (arith, code-digit_char d h), digits)

-- What the digits of a number begin with, and what they are made of.
record Printed (s : String) : Type 0 where
  all_digits : AllDigits s
  first : Char
  rest : String
  split : s ≡ String.◌∷◌ first rest

module _ (m : ℕ) (out : String) (digits : AllDigits out) where
  Printed-small : m < 10 → Printed (digits_before m out)
  Printed-small p =
      rw (digits_step m out, if_pos (dec_lt m 10) p)
        (record {
          all_digits = AllDigits-digit m out p digits;
          first = digit_char m;
          rest = out;
          split = refl;
        })

  Printed-large :
      ¬ (m < 10)
      → Printed (digits_before (m / 10) (String.◌∷◌ (digit_char (m % 10)) out))
      → Printed (digits_before m out)
  Printed-large p ih = rw (digits_step m out, if_neg (dec_lt m 10) p) ih

digits_before-Printed : (n : ℕ) (out : String) → AllDigits out → Printed (digits_before n out)
digits_before-Printed n =
    WellFounded.induction lt_wf
      {C = λ m. (out : String) → AllDigits out → Printed (digits_before m out)} n
      λ m ih out digits. elim (dec_lt m 10) [
        | yes p ↦ Printed-small m out digits p
        | no p ↦
            Printed-large m out digits p
              (ih (m / 10) (omega arith) _ (AllDigits-digit (m % 10) out (omega arith) digits))
      ]

show-Printed : (n : ℕ) → Printed (show n)
unfolding show
show-Printed n = digits_before-Printed n "" tt

pub show-AllDigits : (n : ℕ) → AllDigits (show n)
show-AllDigits n = (show-Printed n).all_digits

strip_right-digits : (s : String) → AllDigits s → strip_right s ≡ s
unfolding strip_right all_space is_space
strip_right-digits String.[] h = refl
strip_right-digits (String.◌∷◌ c s) (lo, hi, h) = rw (strip_right-digits s h) (ground arith)

parse_int-digits :
    (c : Char) (s : String)
    → AllDigits (String.◌∷◌ c s)
    → parse_int (String.◌∷◌ c s)
      ≡ Option.map (λ n. (false, n)) (int_digits (String.◌∷◌ c s) false 0)
unfolding parse_int strip is_space int_signed
parse_int-digits c s (lo, hi, h) = ground (arith, strip_right-digits (String.◌∷◌ c s) (lo, hi, h))

parse_int-show_first :
    (n : ℕ) (c : Char) (s : String)
    → show n ≡ String.◌∷◌ c s
    → parse_int (show n) ≡ Option.map (λ k. (false, k)) (int_digits (show n) false 0)
parse_int-show_first n c s e = rw e (parse_int-digits c s (subst AllDigits e (show-AllDigits n)))

int_digits-show : (n : ℕ) → int_digits (show n) false 0 ≡ some n
unfolding show int_digits
int_digits-show n = int_digits-digits_before n false ""

-- `int(str(n))` is `n`.
pub parse_int-show : (n : ℕ) → parse_int (show n) ≡ some (false, n)
parse_int-show n =
    let p = show-Printed n in parse_int-show_first n p.first p.rest p.split ∙ rw int_digits-show

pub show-injective : (m n : ℕ) → show m ≡ show n → m ≡ n
show-injective m n e =
    some-injective m n
      (sym (int_digits-show m) ∙ ap (λ s. int_digits s false 0) e ∙ int_digits-show n)

pub show-split : (n : ℕ) → (c : Char) × (s : String) × (show n ≡ String.◌∷◌ c s)
show-split n = let p = show-Printed n in (p.first, p.rest, p.split)

pub AllDigits-Avoids : (k : ℕ) (s : String) → (k < b'0') ⊎ (b'9' < k) → AllDigits s → Avoids k s
AllDigits-Avoids k String.[] far h = tt
AllDigits-Avoids k (String.◌∷◌ c s) far (lo, hi, h) =
    (λ e. absurd (omega arith), AllDigits-Avoids k s far h)
