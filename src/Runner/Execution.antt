-- ===== src/Runner/Execution.antt =====
-- ConfigList.run: the book of configurations, the status of earlier runs, and the runs.
-- The progress bar of `tqdm` and the local counter of failures, which nothing reads, are left out.
pub mod Options
pub mod Status
pub mod Total
pub mod Rerun
use fgnn_artifacts.Prelude.{
  ℕ, zero, suc, ◌-◌, String, ◌<>◌, Bool, true, false, Option, none, some, List, [], ◌∷◌, length,
  set, get_elem?, ltb, leb, ◌==◌, ◌=ˢ◌, text_discrete, if◌then◌else◌, Result, ok, raise,
}
use fgnn_artifacts.Prelude.Dict.{Dict}
use fgnn_artifacts.Prelude.Text.{show, path_join, match_line, parse_int, lines_of}
use fgnn_artifacts.Runner.Os.{Os, Io, pure, bind, write_file}
use fgnn_artifacts.Runner.Value.{Value, show_value, RunStatus, run_ok, not_ok, show_status}
use fgnn_artifacts.Runner.RunConfig
use fgnn_artifacts.Runner.RunConfig.{RunConfig, form_cmd}
use fgnn_artifacts.Runner.ConfigList.{ConfigList, with_list}

-- The lines of the book, without their newlines.
unfoldable pub book_items : Dict Value → List String → List String
book_items [] rest = rest
book_items ((k, v) ∷ d) rest = ("  " <> (k <> (": " <> show_value v))) ∷ book_items d rest

unfoldable pub book_lines : ℕ → List RunConfig → List String
book_lines i [] = []
book_lines i (conf ∷ confs) =
    ("Config" <> (show i <> ":")) ∷ book_items conf.configs (book_lines (suc i) confs)

unfoldable pub status_line : ℕ → RunConfig → String
status_line i conf = "Test" <> (show i <> ("=" <> show_status conf.status))

unfoldable pub status_lines : ℕ → List RunConfig → List String
status_lines i [] = []
status_lines i (conf ∷ confs) = status_line i conf ∷ status_lines (suc i) confs

-- The text of a file with these lines.
unfoldable pub unlines : List String → String
unlines [] = ""
unlines (line ∷ lines) = (line <> "\n") <> unlines lines

abbrev set_status : RunStatus → RunConfig → RunConfig
set_status status conf = record conf { status = status }

-- `self.conf_list[idx].status = status`; `none` is an `IndexError`.
unfoldable pub set_status_at : ℕ → RunStatus → List RunConfig → Option (List RunConfig)
set_status_at i status confs = elim (get_elem? confs i) [
  | none ↦ none
  | some conf ↦ some (set confs i (set_status status conf))
]

-- A negative index counts from the end of the list.
unfoldable pub at_index : Bool × ℕ → RunStatus → List RunConfig → Option (List RunConfig)
unfolding set_status_at
at_index (false, n) status confs = set_status_at n status confs
at_index (true, zero) status confs = set_status_at 0 status confs
at_index (true, suc n) status confs =
    if leb (suc n) (length confs) then set_status_at (length confs - suc n) status confs else none

unfoldable pub status_of : String → RunStatus
status_of s = if s =ˢ "1" then run_ok else not_ok

-- What one line of run_status.txt does; `none` is an exception.
unfoldable pub load_line : String → List RunConfig → Option (List RunConfig)
unfolding at_index
load_line line confs = elim (match_line "Test" line) [
  | none ↦ some confs
  | some (idx, status) ↦ elim (parse_int idx) [
    | none ↦ none
    | some i ↦ at_index i (status_of status) confs
  ]
]

-- An exception ends the loop, and keeps what was loaded before it.
unfoldable pub load_lines : List String → List RunConfig → List RunConfig
unfolding load_line
load_lines [] confs = confs
load_lines (line ∷ lines) confs = elim (load_line line confs) [
  | none ↦ confs
  | some confs' ↦ load_lines lines confs'
]

abbrev pub book_path : String → String
book_path logdir = path_join logdir "configs_book.txt"

abbrev pub status_path : String → String
status_path logdir = path_join logdir "run_status.txt"

abbrev pub after_run : ℕ × RunConfig → RunConfig
after_run (ret, conf) = if ret == 0 then set_status run_ok conf else conf

module _ (os : Os) where
  unfoldable pub print_lines : List String → os.State → os.State
  print_lines [] s = s
  print_lines (line ∷ lines) s = print_lines lines (os.print line s)

  -- The lines go to the terminal, or to a file of the log directory.
  unfoldable pub output : Bool → String → String → List String → Io os (Unit {0})
  unfolding print_lines unlines
  output true logdir path lines s = ok (tt, print_lines lines s)
  output false logdir path lines s =
      write_file os path (unlines lines) (os.system ("mkdir -p " <> logdir) s).1

  unfoldable pub write_configs_book : String → Bool → ConfigList → Io os (Unit {0})
  unfolding output book_lines
  write_configs_book logdir mock cl =
      output mock logdir (book_path logdir)
        (("Test Group: " <> cl.name) ∷ book_lines 0 cl.conf_list)

  unfoldable pub write_run_status : String → Bool → ConfigList → Io os (Unit {0})
  unfolding output status_lines
  write_run_status logdir mock cl =
      output mock logdir (status_path logdir) (status_lines 0 cl.conf_list)

  unfoldable pub load_run_status : String → ConfigList → os.State → ConfigList
  unfolding load_lines
  load_run_status logdir cl s = elim (os.read (status_path logdir) s) [
    | none ↦ cl
    | some content ↦ with_list cl (load_lines (lines_of content) cl.conf_list)
  ]

  abbrev pub Callback : Type 0
  Callback = Option (RunConfig → Io os RunConfig)

  -- A configuration that succeeded before only gets the names of its log files again.
  unfoldable pub run_one :
      String → String → Bool → Bool → Callback → ℕ → RunConfig → Io os RunConfig
  run_one appdir logdir mock durable_log callback i conf s = elim conf.status [
    | run_ok ↦ elim (form_cmd i appdir logdir durable_log conf) [
      | raise e ↦ raise e
      | ok (_, conf') ↦ ok (conf', s)
    ]
    | not_ok ↦ elim (RunConfig.run os i appdir logdir mock durable_log callback conf s) [
      | raise e ↦ raise e
      | ok (done, s') ↦ ok (after_run done, s')
    ]
  ]

  unfoldable pub run_all :
      String → String → Bool → Bool → Callback → ℕ → List RunConfig → Io os (List RunConfig)
  unfolding run_one
  run_all appdir logdir mock durable_log callback i [] = pure os []
  run_all appdir logdir mock durable_log callback i (conf ∷ confs) =
      bind os (run_one appdir logdir mock durable_log callback i conf) λ conf'.
        bind os (run_all appdir logdir mock durable_log callback (suc i) confs)
          λ confs'. pure os (conf' ∷ confs')

  unfoldable pub run : String → String → Bool → Bool → Callback → ConfigList → Io os ConfigList
  unfolding write_configs_book load_run_status run_all write_run_status
  run appdir logdir mock durable_log callback cl =
      bind os (write_configs_book logdir mock cl) λ _ s.
        bind os
          (run_all appdir logdir mock durable_log callback 0
            (load_run_status logdir cl s).conf_list)
          (λ confs.
            bind os (write_run_status logdir mock (with_list cl confs))
              λ _. pure os (with_list cl confs))
          s
