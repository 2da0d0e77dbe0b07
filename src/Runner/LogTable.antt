-- ===== src/Runner/LogTable.antt =====
-- class LogTable: the definitions of the rows and columns, and the cells to be filled.
pub mod Definitions
pub mod Abstract
use fgnn_artifacts.Prelude.{
  ℕ, zero, suc, ◌+◌, ◌-◌, String, ◌≡◌, Bool, true, false, Option, none, some, List, [], ◌∷◌, length,
  get_elem?, set, replicate, ltb, if◌then◌else◌, Result, ok, raise, ◌>>=◌, ◌>>◌, assert,
}
use fgnn_artifacts.Prelude.Dict.{Dict, update}
use fgnn_artifacts.Runner.Value.{Value}

pub record LogTable : Type 0 where
  pub num_row : ℕ
  pub num_col : ℕ
  pub default_param_definition : Dict Value
  pub row_definitions : List (List (Dict Value))
  pub col_definitions : List (Option String)
  pub cells : List (List (Option String))
  pub data_configs : List (List (Dict String))
  -- A set, as its elements in order of insertion.
  pub data_refs : List (List String)
  pub is_finalized : Bool

-- `LogTable(num_row, num_col, **kwargs)`
unfoldable pub log_table : ℕ → ℕ → Dict Value → LogTable
log_table num_row num_col defaults = record {
  num_row = num_row;
  num_col = num_col;
  default_param_definition = defaults;
  row_definitions = replicate num_row (replicate num_col []);
  col_definitions = replicate num_col none;
  cells = replicate num_row (replicate num_col none);
  data_configs = replicate num_row (replicate num_col []);
  data_refs = replicate num_row [];
  is_finalized = false;
}

-- `m[i]`, `m[i][j]` and their assignment in a matrix; out of range nothing changes.
abbrev pub cell? {ℓ} : {A : Type ℓ} → List (List A) → ℕ → ℕ → Option A
cell? rows i j = elim (get_elem? rows i) [ none ↦ none | some row ↦ get_elem? row j ]

abbrev pub set_cell {ℓ} : {A : Type ℓ} → List (List A) → ℕ → ℕ → A → List (List A)
set_cell rows i j v = elim (get_elem? rows i) [ none ↦ rows | some row ↦ set rows i (set row j v) ]

-- `row_definitions[row_id][j]` is a dict of the defaults and then of the arguments.
unfoldable pub redefine : LogTable → Dict Value → Dict Value → Dict Value
unfolding update
redefine t kwargs d = update (update d t.default_param_definition) kwargs

unfoldable pub update_cell : ℕ → ℕ → Dict Value → LogTable → LogTable
unfolding redefine
update_cell i j kwargs t = elim (cell? t.row_definitions i j) [
  | none ↦ t
  | some d ↦ record t { row_definitions = set_cell t.row_definitions i j (redefine t kwargs d) }
]

-- The loop `for j in range(col_range[0], col_range[1] + 1)`, by the rounds left.
unfoldable pub update_cells : ℕ → ℕ → ℕ → Dict Value → LogTable → Result LogTable
unfolding update_cell
update_cells zero i j kwargs t = ok t
update_cells (suc rounds) i j kwargs t = do
  assert (ltb j t.num_col)
  update_cells rounds i (suc j) kwargs (update_cell i j kwargs t)

unfoldable pub update_row_definition : ℕ → ℕ → ℕ → Dict Value → LogTable → Result LogTable
unfolding update_cells
update_row_definition row_id first last kwargs t = do
  assert (ltb row_id t.num_row)
  update_cells (last + 1 - first) row_id first kwargs t

unfoldable pub update_col_definition : ℕ → String → LogTable → Result LogTable
update_col_definition col_id definition t = do
  assert (ltb col_id t.num_col)
  ok (record t { col_definitions = set t.col_definitions col_id (some definition) })

all_defined : List (Option String) → Bool
all_defined [] = true
all_defined (none ∷ cols) = false
all_defined (some c ∷ cols) = all_defined cols

-- A row definition is a dict, so the second test of the source, `!= None`, always holds.
unfoldable pub create : LogTable → Result LogTable
unfolding all_defined
create t = do assert (all_defined t.col_definitions); ok (record t { is_finalized = true })
