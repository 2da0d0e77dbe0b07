-- ===== src/Runner/RunConfig/Parsing.antt =====
-- Parsing a log changes neither the options of a configuration nor the name of its log file.
use fgnn_artifacts.Prelude.{
  String, ◌≡◌, refl, ◌∙◌, Option, some, List, [], ◌∷◌, Option-cases, inl, inr, arith,
}
use fgnn_artifacts.Prelude.Dict.{Dict}
use fgnn_artifacts.Runner.Os.{Os}
use fgnn_artifacts.Runner.Value.{Value}
use fgnn_artifacts.Runner.RunConfig.{
  RunConfig, read_line, read_lines, log_lines, parse_log, test_result,
}

-- The options and the log file.
pub record Core : Type 0 where
  pub configs : Dict Value
  pub log : Option String

abbrev pub core : RunConfig → Core
core c = record { configs = c.configs; log = c.std_out_log }

core-read_line :
    (format_2f : String → Option String) (line : String) (c c' : RunConfig)
    → read_line format_2f line c ≡ some c'
    → core c' ≡ core c
unfolding read_line
core-read_line format_2f line c c' h = ground arith

core-read_lines :
    (format_2f : String → Option String) (lines : List String) (c : RunConfig)
    → core (read_lines format_2f lines c) ≡ core c
unfolding read_lines
core-read_lines format_2f [] c = refl
core-read_lines format_2f (line ∷ lines) c = elim (Option-cases (read_line format_2f line c)) [
  | inl e ↦ ground arith
  | inr (c', e) ↦
      rw (e, read_lines) (core-read_lines format_2f lines c' ∙ core-read_line format_2f line c c' e)
]

pub core-parse_log : (os : Os) (c : RunConfig) (s : os.State) → core (parse_log os c s) ≡ core c
unfolding parse_log
core-parse_log os c s =
    ground (arith, core-read_lines os.format_2f (log_lines os c.std_out_log s) c)

pub core-test_result : (metric : String) (c : RunConfig) → core (test_result metric c).1 ≡ core c
unfolding test_result
core-test_result metric c = ground arith
