-- ===== src/Tests/Memory.antt =====
-- A system that keeps its files in a dict and the commands that it was given in a list. A command
-- succeeds and changes no file; numbers in logs stand as they are.
use fgnn_artifacts.Prelude.{String, ◌≡◌, refl, some, List, [], ◌∷◌, =ˢ_refl, arith}
use fgnn_artifacts.Prelude.Dict.{Dict, lookup, insert, lookup-insert}
use fgnn_artifacts.Runner.Os.{Os, WritesAll}
use fgnn_artifacts.Runner.Execution.Status.{ReadsBack}

abbrev pub Files : Type 0
Files = Dict String × List String

unfoldable pub memory : Os
unfolding lookup insert
memory = record {
  State = Files;
  system = λ command s. (0, (s.0, command ∷ s.1));
  print = λ line s. s;
  read = λ path s. lookup path s.0;
  write = λ path content s. some (insert path content s.0, s.1);
  format_2f = λ s. some s;
  set_order = λ l. l;
}

unfoldable pub nothing : memory.State
unfolding memory
nothing = ([], [])

pub memory-WritesAll : WritesAll memory
unfolding memory
memory-WritesAll path content s = ((insert path content s.0, s.1), refl)

pub memory-ReadsBack : ReadsBack memory
unfolding memory
memory-ReadsBack path content s s' e =
    let same : (insert path content s.0, s.1) ≡ s' = ground (arith, e) in
    rw (← same) (rw (lookup-insert path path content s.0, =ˢ_refl path) refl)
