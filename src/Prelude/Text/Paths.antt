-- ===== src/Prelude/Text/Paths.antt =====
-- `os.path.join`, `os.path.normpath` and `split(os.sep)` on POSIX paths.
use text.Mathlib.TextLemmas
use Prim.Native.Char.{code}
use Prim.Native.String.{String, ◌++◌}
use mathlib.Core.Path.{◌≡◌, refl, sym, ◌∙◌}
use mathlib.Core.Logic.{inl, inr}
use mathlib.Core.Bool.{Bool, false, not, ◌&&◌, ◌||◌}
use mathlib.Core.List.{List, [], ◌∷◌, reverse}
use fgnn_artifacts.Prelude.Tests.{◌==◌, ◌=ˢ◌, text_discrete, if◌then◌else◌, Bool-cases}
use fgnn_artifacts.Prelude.Text.Basic.{starts_with, split, join}

ends_with_slash : String → Bool
ends_with_slash String.[] = false
ends_with_slash (String.◌∷◌ c String.[]) = code c == b'/'
ends_with_slash (String.◌∷◌ c (String.◌∷◌ d s)) = ends_with_slash (String.◌∷◌ d s)

unfoldable pub path_join : String → String → String
unfolding ends_with_slash starts_with
path_join a b =
    if starts_with b "/"
    then b
    else if (a =ˢ "") || ends_with_slash a
    then a ++ b
    else a ++ ("/" ++ b)

-- One round of the loop of `normpath`; the components so far stand in reverse.
norm_step : Bool → List String → String → List String
norm_step rooted done comp =
    if (comp =ˢ "") || (comp =ˢ ".")
    then done
    else if not (comp =ˢ "..")
    then comp ∷ done
    else elim done [
      | [] ↦ if rooted then [] else ".." ∷ []
      | last ∷ rest ↦ if last =ˢ ".." then comp ∷ last ∷ rest else rest
    ]

norm_comps : Bool → List String → List String → List String
unfolding norm_step
norm_comps rooted done [] = done
norm_comps rooted done (c ∷ cs) = norm_comps rooted (norm_step rooted done c) cs

root_of : String → String
unfolding starts_with
root_of path =
    if starts_with path "/"
    then (if starts_with path "//" && not (starts_with path "///") then "//" else "/")
    else ""

or_dot : String → String
or_dot String.[] = "."
or_dot (String.◌∷◌ c s) = String.◌∷◌ c s

unfoldable pub normpath : String → String
unfolding norm_comps root_of or_dot split join starts_with
normpath path =
    or_dot
      (root_of path ++ join "/" (reverse (norm_comps (starts_with path "/") [] (split "/" path))))

last_two : List String → List String
last_two (a ∷ b ∷ c ∷ xs) = last_two (b ∷ c ∷ xs)
last_two xs = xs

-- `os.sep.join(os.path.normpath(p).split(os.sep)[-2:])`
unfoldable pub short_ref : String → String
unfolding last_two normpath split join
short_ref p = join "/" (last_two (split "/" (normpath p)))

paths_run :
    (path_join "/a/b" "c.log" ≡ "/a/b/c.log")
    × (normpath "/a/../b//./c" ≡ "/b/c")
    × (short_ref "/x/out/logs_dgl/test3.log" ≡ "logs_dgl/test3.log")
unfolding path_join short_ref text_discrete
paths_run = (refl, refl, refl)

-- What `os.path.join` puts in front of a path that is not absolute.
separator : String → String
unfolding ends_with_slash
separator a = if (a =ˢ "") || ends_with_slash a then "" else "/"

path_join-relative :
    (a b : String) → starts_with b "/" ≡ false → path_join a b ≡ a ++ (separator a ++ b)
unfolding path_join separator
path_join-relative a b h = elim (Bool-cases ((a =ˢ "") || ends_with_slash a)) [
  | inl e ↦ rw (h, e, TextLemmas.nil-append) refl
  | inr e ↦ rw (h, e) refl
]

pub path_join-injective :
    (a b c : String)
    → starts_with b "/" ≡ false
    → starts_with c "/" ≡ false
    → path_join a b ≡ path_join a c
    → b ≡ c
path_join-injective a b c hb hc e = TextLemmas.append_cancel_left (separator a) b c (
    TextLemmas.append_cancel_left a _ _
      (sym (path_join-relative a b hb) ∙ e ∙ path_join-relative a c hc))
