-- ===== src/Runner/Execution/Options.antt =====
-- Loading the statuses of an earlier run keeps the options of every configuration.
use fgnn_artifacts.Prelude.{
  ℕ, zero, suc, String, ◌≡◌, refl, ap, Bool, true, false, some, List, [], ◌∷◌, map, length, set,
  get_elem?, Option-cases, ◌-◌, arith, inl, inr,
}
use fgnn_artifacts.Prelude.Dict.{Dict}
use fgnn_artifacts.Prelude.Text.{match_line, parse_int, lines_of}
use fgnn_artifacts.Runner.Os.{Os}
use fgnn_artifacts.Runner.Value.{Value, RunStatus}
use fgnn_artifacts.Runner.RunConfig.{RunConfig}
use fgnn_artifacts.Runner.ConfigList.{ConfigList}
use fgnn_artifacts.Runner.Execution.{
  set_status, set_status_at, at_index, status_of, status_path, load_line, load_lines,
  load_run_status,
}

-- The options of the configurations.
abbrev pub options_of : List RunConfig → List (Dict Value)
options_of = map (λ (c : RunConfig). c.configs)

options_of-set :
    (st : RunStatus) (conf : RunConfig) (i : ℕ) (confs : List RunConfig)
    → get_elem? confs i ≡ some conf
    → options_of (set confs i (set_status st conf)) ≡ options_of confs
options_of-set st conf i [] h = refl
options_of-set st conf zero (c ∷ confs) h = ground arith
options_of-set st conf (suc i) (c ∷ confs) h =
    ap (λ l. c.configs ∷ l) (options_of-set st conf i confs h)

options_of-set_status_at :
    (i : ℕ) (st : RunStatus) (confs confs' : List RunConfig)
    → set_status_at i st confs ≡ some confs'
    → options_of confs' ≡ options_of confs
unfolding set_status_at
options_of-set_status_at i st confs confs' h = elim (Option-cases (get_elem? confs i)) [
  | inl e ↦ ground arith
  | inr (conf, e) ↦ ground (arith, options_of-set st conf i confs e)
]

options_of-at_index :
    (at : Bool × ℕ) (st : RunStatus) (confs confs' : List RunConfig)
    → at_index at st confs ≡ some confs'
    → options_of confs' ≡ options_of confs
unfolding at_index
options_of-at_index (false, n) st confs confs' h = options_of-set_status_at n st confs confs' h
options_of-at_index (true, zero) st confs confs' h = options_of-set_status_at 0 st confs confs' h
options_of-at_index (true, suc n) st confs confs' h =
    ground (arith, options_of-set_status_at (length confs - suc n) st confs confs')

options_of-load_line :
    (line : String) (confs confs' : List RunConfig)
    → load_line line confs ≡ some confs'
    → options_of confs' ≡ options_of confs
unfolding load_line
options_of-load_line line confs confs' h = elim (Option-cases (match_line "Test" line)) [
  | inl e ↦ ground arith
  | inr ((idx, status), e) ↦ elim (Option-cases (parse_int idx)) [
    | inl e' ↦ ground arith
    | inr (at, e') ↦ options_of-at_index at (status_of status) confs confs' (ground arith)
  ]
]

options_of-load_lines :
    (lines : List String) (confs : List RunConfig)
    → options_of (load_lines lines confs) ≡ options_of confs
unfolding load_lines
options_of-load_lines [] confs = refl
options_of-load_lines (line ∷ lines) confs = elim (Option-cases (load_line line confs)) [
  | inl e ↦ ground arith
  | inr (confs', e) ↦
      ground (arith, options_of-load_line line confs confs' e, options_of-load_lines lines confs')
]

pub options_of-load_run_status :
    (os : Os) (logdir : String) (cl : ConfigList) (s : os.State)
    → options_of (load_run_status os logdir cl s).conf_list ≡ options_of cl.conf_list
unfolding load_run_status
options_of-load_run_status os logdir cl s = elim (Option-cases (os.read (status_path logdir) s)) [
  | inl e ↦ ground arith
  | inr (content, e) ↦ ground (arith, options_of-load_lines (lines_of content) cl.conf_list)
]
