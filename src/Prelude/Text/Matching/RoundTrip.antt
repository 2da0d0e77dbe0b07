-- ===== src/Prelude/Text/Matching/RoundTrip.antt =====
-- A line that was written as `<prefix>key=value` is taken apart into the key and the value.
use Prim.Native.Char.{Char}
use Prim.Native.String.{String, ◌++◌}
use mathlib.Core.Path.{◌≡◌, refl}
use mathlib.Core.Option.{none, some}
use native.Mathlib.Omega.{arith}
use text.Mathlib.TextLemmas.{nil-append, cons-append}
use fgnn_artifacts.Prelude.Text.Basic.{Avoids, strip_prefix-append}
use fgnn_artifacts.Prelude.Text.Matching.{
  until_newline, last_group, with_char, or_last, greedy, groups, match_line,
}

match_line-append : (prefix s : String) → match_line prefix (prefix ++ s) ≡ groups s
unfolding match_line
match_line-append prefix s = ground (arith, strip_prefix-append prefix s)

until_newline-line : (v : String) → Avoids b'\n' v → until_newline (v ++ "\n") ≡ some v
unfolding until_newline
until_newline-line String.[] h = refl
until_newline-line (String.◌∷◌ c v) (ne, h) =
    rw cons-append (ground (arith, until_newline-line v h))

-- No `=` before the newline: there is nothing to split.
greedy-line : (v : String) → Avoids b'=' v → greedy (v ++ "\n") ≡ none
unfolding greedy with_char or_last
greedy-line String.[] h = refl
greedy-line (String.◌∷◌ c v) (ne, h) = rw cons-append (ground (arith, greedy-line v h))

module _ (d : Char) (v : String) (eq_free : Avoids b'=' (String.◌∷◌ d v))
    (line : Avoids b'\n' (String.◌∷◌ d v)) where
  abbrev value : String
  value = String.◌∷◌ d v

  greedy-equals : greedy (String.◌∷◌ "=" (value ++ "\n")) ≡ some ("", value)
  unfolding greedy with_char or_last last_group
  greedy-equals = ground (arith, greedy-line value eq_free, until_newline-line value line)

  greedy-key :
      (k : String) → Avoids b'\n' k → greedy (k ++ String.◌∷◌ "=" (value ++ "\n")) ≡ some (k, value)
  unfolding greedy with_char or_last
  greedy-key String.[] h = rw nil-append greedy-equals
  greedy-key (String.◌∷◌ c k) (ne, h) = rw cons-append (ground (arith, greedy-key k h))

  -- For a key and a value that are not empty and hold no newline, where the value holds no `=`.
  pub match_line-line :
      (prefix : String) (c : Char) (k : String)
      → Avoids b'\n' (String.◌∷◌ c k)
      → match_line prefix (prefix ++ (String.◌∷◌ c k ++ String.◌∷◌ "=" (value ++ "\n")))
        ≡ some (String.◌∷◌ c k, value)
  unfolding groups with_char
  match_line-line prefix c k (ne, h) =
      rw (match_line-append, cons-append) (ground (arith, greedy-key k h))
