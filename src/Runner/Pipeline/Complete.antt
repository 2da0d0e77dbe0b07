-- ===== src/Runner/Pipeline/Complete.antt =====
-- An experiment that is ready runs to its end and fills its table.
use fgnn_artifacts.Prelude.{
  ℕ, ◌<◌, String, ◌≡◌, Bool, true, some, List, length, arith, Option-cases, inl, inr, each_below,
  each_below_elim, ok, get_elem?,
}
use fgnn_artifacts.Prelude.Dict.{Dict}
use fgnn_artifacts.Runner.Os.{Os, WritesAll}
use fgnn_artifacts.Runner.Value.{Value}
use fgnn_artifacts.Runner.LogTable.{LogTable, cell?}
use fgnn_artifacts.Runner.RunConfig.{RunConfig}
use fgnn_artifacts.Runner.ConfigList
use fgnn_artifacts.Runner.ConfigList.{ConfigList}
use fgnn_artifacts.Runner.Execution.Total.{run_total}
use fgnn_artifacts.Runner.Report.{is_filled, has_places}
use fgnn_artifacts.Runner.Report.Filling.{Known, Listed}
use fgnn_artifacts.Runner.Report.Total.{Placed, parse_logs_total}
use fgnn_artifacts.Runner.Pipeline.{experiment, one_match, is_ready}
use fgnn_artifacts.Runner.Pipeline.Planned.{HasOne-planned}

has_places_lem :
    (t : LogTable) (i j : ℕ)
    → has_places i j t ≡ true
    → Known t.cells i j × Known t.data_configs i j × Listed t.data_refs i
has_places_lem t i j h = elim (Option-cases (cell? t.cells i j)) [
  | inl e ↦ absurd (ground (arith, e))
  | inr known ↦ elim (Option-cases (cell? t.data_configs i j)) [
    | inl e ↦ absurd (ground (arith, known.1, e))
    | inr config ↦ elim (Option-cases (get_elem? t.data_refs i)) [
      | inl e ↦ absurd (ground (arith, known.1, config.1, e))
      | inr listed ↦ (known, config, listed)
    ]
  ]
]

one_match_lem :
    (t : LogTable) (confs : List RunConfig) (i j : ℕ)
    → one_match t confs i j ≡ true
    → (d : Dict Value) × (cell? t.row_definitions i j ≡ some d)
      × (length (ConfigList.match d confs) ≡ 1)
      × Known t.cells i j
      × Placed t i j
unfolding one_match
one_match_lem t confs i j h = elim (Option-cases (cell? t.row_definitions i j)) [
  | inl e ↦ absurd (ground arith)
  | inr (d, e) ↦
      let (known, config, listed) = has_places_lem t i j (ground arith) in
      elim (Option-cases (get_elem? t.col_definitions j)) [
        | inl no_column ↦ absurd (ground arith)
        | inr column ↦ (d, e, ground arith, known, (column, config, listed))
      ]
]

module _ (os : Os) (writes : WritesAll os) (appdir logdir : String) (mock : Bool) where
  -- On a system where every write succeeds, running a list and parsing its logs into a table
  -- returns, if the table is final, each command line can be formed, and each column and each cell in
  -- the table's range exists, with its places for options and references, and the cell has a row definition that matches exactly one configuration
  -- of the list. Each of
  -- those cells then holds a text.
  pub experiment_total :
      (t : LogTable) (cl : ConfigList) (s : os.State)
      → is_ready t cl ≡ true
      → (cl' : ConfigList) × (t' : LogTable) × (s' : os.State) × (experiment os appdir logdir mock t
            cl s
          ≡ ok ((cl', t'), s'))
        × (is_filled t t' ≡ true)
  unfolding experiment is_ready
  experiment_total t cl s ready =
      let cell : (i j : ℕ) → i < t.num_row → j < t.num_col → one_match t cl.conf_list i j ≡ true =
        λ i j hi hj.
          each_below_elim t.num_col (one_match t cl.conf_list i) j
            (each_below_elim t.num_row (λ a. each_below t.num_col (one_match t cl.conf_list a)) i
              (ground arith) hi)
            hj in
      let (cl₁, s₁, ran, plan) = run_total os writes appdir logdir mock cl s (ground arith) in
      let (cl₂, t₂, s₂, parsed, filled) =
        parse_logs_total os writes t logdir " " " " " " cl₁ s₁ (ground arith) (λ i j hi hj.
          let (d, defined, one, known, headed) =
            one_match_lem t cl.conf_list i j (cell i j hi hj) in
          (
            d,
            defined,
            HasOne-planned d logdir cl.conf_list cl₁.conf_list plan one,
            known,
            headed,
          )) in
      (cl₂, t₂, s₂, ground (arith, ran, parsed), filled)
