-- ===== src/Runner/RunConfig.antt =====
-- class RunConfig: one run of a training script.
pub mod Commands
pub mod Parsing
pub mod Logs
use fgnn_artifacts.Prelude.{
  ℕ, String, ◌<>◌, Bool, true, false, not, Option, none, some, List, [], ◌∷◌, ◌=ˢ◌, text_discrete,
  if◌then◌else◌, Result, ok, raise, ◌>>=◌, attribute_error, key_error,
}
use fgnn_artifacts.Prelude.Dict.{Dict, lookup, insert, update}
use fgnn_artifacts.Prelude.Text.{show, replace, starts_with, path_join, match_line, lines_of}
use fgnn_artifacts.Runner.Os.{Os, Io, pure}
use fgnn_artifacts.Runner.Value.{
  App, Value, app, text, dataset, int, hundredths, same, show_value, RunStatus, run_ok, not_ok,
}

pub record RunConfig : Type 0 where
  pub configs : Dict Value
  pub std_out_log : Option String
  pub std_err_log : Option String
  -- `none` is -1: not run yet.
  pub run_idx : Option ℕ
  pub is_log_parsed : Bool
  -- `defaultdict(lambda: 'X')`, twice.
  pub full_configs : Dict String
  pub test_results : Dict String
  pub status : RunStatus

-- `RunConfig(app, **kwargs)`
unfoldable pub run_config : App → Dict Value → RunConfig
unfolding update
run_config a kwargs = record {
  configs = update (("app", app a) ∷ []) kwargs;
  std_out_log = none;
  std_err_log = none;
  run_idx = none;
  is_log_parsed = false;
  full_configs = [];
  test_results = [];
  status = not_ok;
}

-- One option of the command line. Only a text has a method `replace`.
unfoldable pub option : String → Value → Result String
unfolding starts_with
option k v =
    if starts_with k "BOOL_"
    then elim v [ text s ↦ ok (" --" <> replace "_" "-" s) | _ ↦ raise attribute_error ]
    else ok (" --" <> (replace "_" "-" k <> (" " <> show_value v)))

-- The loop over `self.configs.items()`.
unfoldable pub options : Dict Value → Result String
unfolding option
options [] = ok ""
options ((k, v) ∷ d) = do
  here ← (if k =ˢ "app" then ok "" else option k v)
  rest ← options d
  ok (here <> rest)

abbrev pub std_out_path : String → ℕ → String
std_out_path logdir idx = path_join logdir ("test" <> (show idx <> ".log"))

abbrev pub std_err_path : String → ℕ → String
std_err_path logdir idx = path_join logdir ("test" <> (show idx <> ".err.log"))

abbrev redirections : String → ℕ → String
redirections logdir idx =
    " > \"" <> (std_out_path logdir idx <> ("\" 2> \"" <> (std_err_path logdir idx <> "\"")))

unfoldable pub form_cmd : ℕ → String → String → Bool → RunConfig → Result (String × RunConfig)
unfolding lookup options
form_cmd idx appdir logdir durable_log c = elim (lookup "app" c.configs) [
  | none ↦ raise key_error
  | some a ↦ do
    opts ← options c.configs
    let cmd_line = "python " <> (path_join appdir ("train_" <> (show_value a <> ".py")) <> opts)
    ok (
        if durable_log
        then (
          cmd_line <> redirections logdir idx,
          record c {
            std_out_log = some (std_out_path logdir idx);
            std_err_log = some (std_err_path logdir idx);
          },
        )
        else (cmd_line, c))
]

-- `match(params)`
unfoldable pub match : Dict Value → RunConfig → Bool
unfolding lookup same
match [] c = true
match ((k, v) ∷ params) c =
    let rest = match params c in
    elim (lookup k c.configs) [ none ↦ false | some w ↦ if same v w then rest else false ]

-- What a line of the log adds; `none` is the exception of `float`.
read_line : (String → Option String) → String → RunConfig → Option RunConfig
unfolding insert
read_line format_2f line c =
    let configured : RunConfig = elim (match_line "config:" line) [
      | none ↦ c
      | some (key, value) ↦ record c { full_configs = insert key value c.full_configs }
    ] in
    elim (match_line "test_result:" line) [
      | none ↦ some configured
      | some (key, value) ↦ elim (format_2f value) [
        | none ↦ none
        | some shown ↦
            some (record configured { test_results = insert key shown configured.test_results })
      ]
    ]

-- The loop over the lines. What an exception interrupts keeps what was read before it.
read_lines : (String → Option String) → List String → RunConfig → RunConfig
unfolding read_line
read_lines format_2f [] c = c
read_lines format_2f (line ∷ lines) c = elim (read_line format_2f line c) [
  | none ↦ c
  | some c' ↦ read_lines format_2f lines c'
]

-- `self.test_results[metric]`: a metric that is missing is entered as `X`.
unfoldable pub test_result : String → RunConfig → String × RunConfig
unfolding lookup insert
test_result metric c = elim (lookup metric c.test_results) [
  | some v ↦ (v, c)
  | none ↦ ("X", record c { test_results = insert metric "X" c.test_results })
]

module _ (os : Os) where
  log_lines : Option String → os.State → List String
  unfolding lines_of
  log_lines none s = []
  log_lines (some path) s = elim (os.read path s) [ none ↦ [] | some content ↦ lines_of content ]

  -- A log that cannot be opened counts as parsed, as one that breaks off does.
  unfoldable pub parse_log : RunConfig → os.State → RunConfig
  unfolding log_lines read_lines
  parse_log c s =
      if c.is_log_parsed
      then c
      else record (read_lines os.format_2f (log_lines c.std_out_log s) c) { is_log_parsed = true }

  abbrev called : Option (RunConfig → Io os RunConfig) → RunConfig → Io os RunConfig
  called none c = pure os c
  called (some callback) c = callback c

  -- `run(idx, appdir, logdir, mock, durable_log, callback)`
  unfoldable pub run :
      ℕ
      → String
      → String
      → Bool
      → Bool
      → Option (RunConfig → Io os RunConfig)
      → RunConfig
      → Io os (ℕ × RunConfig)
  unfolding form_cmd
  run idx appdir logdir true durable_log callback c s =
      elim (form_cmd idx appdir logdir durable_log c) [
        | raise e ↦ raise e
        | ok (cmd, c') ↦ ok ((0, record c' { run_idx = some idx }), os.print cmd s)
      ]
  run idx appdir logdir false durable_log callback c s =
      let s₁ = (os.system ("mkdir -p " <> logdir) s).1 in
      elim (form_cmd idx appdir logdir durable_log c) [
        | raise e ↦ raise e
        | ok (cmd, c') ↦
            let (ret, s₂) = os.system cmd s₁ in
            elim (called callback c' s₂) [
              | raise e ↦ raise e
              | ok (c'', s₃) ↦ ok ((ret, record c'' { run_idx = some idx }), s₃)
            ]
      ]
