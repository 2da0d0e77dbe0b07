-- ===== src/Prelude/Text/Basic.antt =====
-- `str` methods: replace, split, join, formats of a fixed width.
use Prim.Native.Nat.{ℕ, zero, suc}
use Prim.Native.Char.{Char, code}
use Prim.Native.String.{String, ◌++◌}
use mathlib.Core.Path.{◌≡◌}
use mathlib.Core.Logic.{◌≢◌}
use mathlib.Core.Bool.{Bool, true, false}
use mathlib.Core.Option.{Option, none, some}
use mathlib.Core.List.{List, [], ◌∷◌}
use native.Mathlib.Omega.{arith}
use text.Mathlib.TextLemmas.{nil-append, cons-append}
use fgnn_artifacts.Prelude.Tests.{◌==◌, if◌then◌else◌}

-- `s.replace(a, b)` for two characters.
unfoldable pub replace : Char → Char → String → String
replace a b String.[] = String.[]
replace a b (String.◌∷◌ c s) = String.◌∷◌ (if code c == code a then b else c) (replace a b s)

-- What follows a prefix, if the text starts with it.
unfoldable pub strip_prefix : String → String → Option String
strip_prefix String.[] s = some s
strip_prefix (String.◌∷◌ c p) String.[] = none
strip_prefix (String.◌∷◌ c p) (String.◌∷◌ d s) = if code c == code d then strip_prefix p s else none

-- `s.startswith(p)`
unfoldable pub starts_with : String → String → Bool
unfolding strip_prefix
starts_with s p = elim (strip_prefix p s) [ none ↦ false | some _ ↦ true ]

push_char : Char → List String → List String
push_char c [] = String.◌∷◌ c String.[] ∷ []
push_char c (x ∷ xs) = String.◌∷◌ c x ∷ xs

-- `s.split(sep)` for a separator of one character.
unfoldable pub split : Char → String → List String
unfolding push_char
split sep String.[] = "" ∷ []
split sep (String.◌∷◌ c s) =
    let rest = split sep s in if code c == code sep then "" ∷ rest else push_char c rest

-- The lines of a file's content, each with its newline.
unfoldable pub lines_of : String → List String
unfolding push_char
lines_of String.[] = []
lines_of (String.◌∷◌ c s) =
    let rest = lines_of s in if code c == b'\n' then "\n" ∷ rest else push_char c rest

-- `sep.join(parts)`
unfoldable pub join : String → List String → String
join sep [] = ""
join sep (x ∷ []) = x
join sep (x ∷ y ∷ xs) = x ++ (sep ++ join sep (y ∷ xs))

-- `'{:<n>s}'.format(s)`: spaces on the right up to the width.
unfoldable pub pad_right : ℕ → String → String
pad_right zero s = s
pad_right (suc n) String.[] = " " ++ pad_right n String.[]
pad_right (suc n) (String.◌∷◌ c s) = String.◌∷◌ c (pad_right n s)

-- No character of the text has this code.
abbrev pub Avoids : ℕ → String → Type 0
Avoids n String.[] = Unit
Avoids n (String.◌∷◌ c s) = (code c ≢ n) × Avoids n s

pub strip_prefix-append : (p s : String) → strip_prefix p (p ++ s) ≡ some s
unfolding strip_prefix
strip_prefix-append String.[] s = rw nil-append
strip_prefix-append (String.◌∷◌ c p) s = rw cons-append (ground (arith, strip_prefix-append p s))

-- A line in front of a text is the first of its lines.
pub lines_of-line :
    (l s : String) → Avoids b'\n' l → lines_of (l ++ String.◌∷◌ "\n" s) ≡ (l ++ "\n") ∷ lines_of s
unfolding lines_of
lines_of-line String.[] s h = rw (nil-append, nil-append)
lines_of-line (String.◌∷◌ c l) s (ne, h) =
    rw (cons-append, cons-append) (ground (arith, lines_of-line l s h))

pub Avoids-append : (n : ℕ) (s t : String) → Avoids n s → Avoids n t → Avoids n (s ++ t)
Avoids-append n String.[] t hs ht = rw nil-append ht
Avoids-append n (String.◌∷◌ c s) t (ne, hs) ht = rw cons-append (ne, Avoids-append n s t hs ht)
