-- ===== src/Prelude/Text/Matching.antt =====
-- `re.match(r'<prefix>(.+)=(.+)\n', line)`, the one form of pattern that the runners use.
pub mod RoundTrip
use Prim.Native.Nat.{ℕ}
use Prim.Native.Char.{Char, code}
use Prim.Native.String.{String, ◌++◌}
use mathlib.Core.Path.{◌≡◌, refl}
use mathlib.Core.Logic.{◌≢◌}
use mathlib.Core.Option.{Option, none, some}
use native.Mathlib.Omega.{arith}
use text.Mathlib.TextLemmas.{nil-append, cons-append}
use fgnn_artifacts.Prelude.Tests.{◌==◌, if◌then◌else◌}
use fgnn_artifacts.Prelude.Text.Basic.{Avoids, strip_prefix, strip_prefix-append}

-- What stands before the first newline, if there is one.
until_newline : String → Option String
until_newline String.[] = none
until_newline (String.◌∷◌ c s) =
    if code c == b'\n'
    then some ""
    else elim (until_newline s) [ none ↦ none | some t ↦ some (String.◌∷◌ c t) ]

-- `(.+)\n`
last_group : String → Option String
unfolding until_newline
last_group s = elim (until_newline s) [
  | none ↦ none
  | some String.[] ↦ none
  | some (String.◌∷◌ c t) ↦ some (String.◌∷◌ c t)
]

with_char : Char → Option (String × String) → Option (String × String)
with_char c none = none
with_char c (some (k, v)) = some (String.◌∷◌ c k, v)

or_last : Option (String × String) → Option String → Option (String × String)
or_last (some kv) _ = some kv
or_last none none = none
or_last none (some v) = some ("", v)

-- `(.*)=(.+)\n`: the first group is greedy, so the last `=` that fits is taken.
greedy : String → Option (String × String)
unfolding with_char or_last last_group
greedy String.[] = none
greedy (String.◌∷◌ c s) =
    let later = with_char c (greedy s) in
    or_last (if code c == b'\n' then none else later)
      (if code c == b'=' then last_group s else none)

-- `(.+)=(.+)\n`
groups : String → Option (String × String)
unfolding greedy
groups String.[] = none
groups (String.◌∷◌ c s) = if code c == b'\n' then none else with_char c (greedy s)

unfoldable pub match_line : String → String → Option (String × String)
unfolding groups strip_prefix
match_line prefix line = elim (strip_prefix prefix line) [ none ↦ none | some rest ↦ groups rest ]

match_line_runs :
    (match_line "config:" "config:a=b=c\n" ≡ some ("a=b", "c"))
    × (match_line "config:" "config:a=b=\n" ≡ some ("a", "b="))
    × (match_line "Test" "Test3=1" ≡ none)
    × (match_line "Test" "Test=1\n" ≡ none)
unfolding match_line
match_line_runs = (refl, refl, refl, refl)
