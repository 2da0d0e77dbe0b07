-- ===== src/Runner/LogTable/Abstract.antt =====
-- A LogTable's row definitions as a function from cells to dicts, which is what the scripts mean by a
-- chain of calls of update_row_definition.
use fgnn_artifacts.Prelude.{
  ℕ, ◌+◌, ◌-◌, ◌<◌, ◌≡◌, refl, ◌∙◌, ap, replicate, Bool, true, ◌&&◌, some, List, [], ◌∷◌, all_of,
  ltb, ltb→lt, if◌then◌else◌, Result, ok, ◌>>=◌, arith,
}
use fgnn_artifacts.Prelude.Dict.{Dict, update}
use fgnn_artifacts.Runner.Value.{Value}
use fgnn_artifacts.Runner.LogTable.{LogTable, log_table, cell?, redefine, update_row_definition}
use fgnn_artifacts.Runner.LogTable.Definitions.{
  HasCells, log_table-HasCells, touched, HasCells-Redefines, get_elem?-replicate,
  update_row_definition_lem,
}

-- The arguments of one call.
pub record RowUpdate : Type 0 where
  pub row_id : ℕ
  pub first : ℕ
  pub last : ℕ
  pub kwargs : Dict Value

-- The calls one after another.
unfoldable pub update_rows : List RowUpdate → LogTable → Result LogTable
unfolding update_row_definition
update_rows [] t = ok t
update_rows (u ∷ us) t = do
  t' ← update_row_definition u.row_id u.first u.last u.kwargs t
  update_rows us t'

-- The cells that a call is about.
abbrev pub covers : RowUpdate → ℕ → ℕ → Bool
covers u a b = touched u.row_id u.first (u.last + 1 - u.first) a b

-- What the calls make of the definition of one cell.
unfoldable pub meaning : Dict Value → List RowUpdate → ℕ → ℕ → Dict Value → Dict Value
unfolding update
meaning defaults [] a b d = d
meaning defaults (u ∷ us) a b d =
    meaning defaults us a b (if covers u a b then update (update d defaults) u.kwargs else d)

abbrev pub in_range : ℕ → ℕ → RowUpdate → Bool
in_range num_row num_col u = ltb u.row_id num_row && ltb u.last num_col

update_rows_lem :
    (us : List RowUpdate) (t : LogTable) (a b : ℕ) (d : Dict Value)
    → HasCells t
    → all_of (in_range t.num_row t.num_col) us ≡ true
    → cell? t.row_definitions a b ≡ some d
    → (t' : LogTable) × (update_rows us t ≡ ok t')
      × (cell? t'.row_definitions a b ≡ some (meaning t.default_param_definition us a b d))
unfolding update_rows meaning redefine
update_rows_lem [] t a b d h r e = (t, refl, e)
update_rows_lem (u ∷ us) t a b d h r e =
    let (t₁, done, red) =
      update_row_definition_lem u.row_id u.kwargs u.first u.last t h
        (ltb→lt u.row_id t.num_row (ground arith)) (ltb→lt u.last t.num_col (ground arith)) in
    let at_cell : cell? t₁.row_definitions a b
        ≡ some (if covers u a b then redefine t u.kwargs d else d) =
      red.cells a b ∙ ground (arith, e) in
    let (t', rest, found) =
      update_rows_lem us t₁ a b _ (HasCells-Redefines red h)
        (rw (red.same_rows, red.same_cols) (ground arith)) at_cell in
    let d' : Dict Value = if covers u a b then redefine t u.kwargs d else d in
    (
      t',
      ground (arith, done, rest),
      found ∙ ap (λ ds. some (meaning ds us a b d')) red.same_defaults,
    )

-- A table that is created with some defaults and then given row definitions, whose rows and last
-- columns are in range, holds in each cell of its range what the calls mean there: starting with
-- the empty dict, each call that covers the cell, in order, updates the dict by the defaults and
-- then by its arguments, and the other calls do nothing. No call raises.
pub update_rows-meaning :
    (num_row num_col : ℕ) (defaults : Dict Value) (us : List RowUpdate) (a b : ℕ)
    → all_of (in_range num_row num_col) us ≡ true
    → a < num_row
    → b < num_col
    → (t : LogTable) × (update_rows us (log_table num_row num_col defaults) ≡ ok t)
      × (cell? t.row_definitions a b ≡ some (meaning defaults us a b []))
unfolding log_table
update_rows-meaning num_row num_col defaults us a b r ha hb =
    update_rows_lem us (log_table num_row num_col defaults) a b []
      (log_table-HasCells num_row num_col defaults) r
      (ground (
        arith,
        get_elem?-replicate num_row a (replicate {A = Dict Value} num_col []) ha,
        get_elem?-replicate {A = Dict Value} num_col b [] hb,
      ))
