-- ===== src/Runner/LogTable/Definitions.antt =====
-- What update_row_definition does to each cell of the row definitions, and when it raises.
use fgnn_artifacts.Prelude.{
  ℕ, zero, suc, ◌+◌, ◌-◌, ◌≤◌, ◌<◌, ◌≡◌, refl, ◌∙◌, inl, inr, Bool, ◌&&◌, Option, none, some,
  Option-cases, Bool-cases, ◌⊎◌, [], get_elem?, replicate, ltb, leb, ◌==◌, lt→ltb, if◌then◌else◌,
  ok, raise, assertion_error, ℕ_discrete, arith,
}
use fgnn_artifacts.Prelude.Dict.{Dict}
use fgnn_artifacts.Runner.Value.{Value}
use fgnn_artifacts.Runner.LogTable.{
  LogTable, log_table, cell?, redefine, update_cell, update_cells, update_row_definition,
}
use fgnn_artifacts.Runner.Report.Filling.{
  cell?-set_cell_self, cell?-set_cell_row, cell?-set_cell_other,
}

abbrev pub Defined : LogTable → ℕ → ℕ → Type 0
Defined t a b = (d : Dict Value) × (cell? t.row_definitions a b ≡ some d)

-- Each cell in the range has a definition.
abbrev pub HasCells : LogTable → Type 0
HasCells t = (a b : ℕ) → a < t.num_row → b < t.num_col → Defined t a b

pub get_elem?-replicate {ℓ} :
    {A : Type ℓ} (n i : ℕ) (x : A) → i < n → get_elem? (replicate n x) i ≡ some x
get_elem?-replicate zero i x lt = absurd (omega arith)
get_elem?-replicate (suc n) zero x lt = refl
get_elem?-replicate (suc n) (suc i) x lt = get_elem?-replicate n i x (omega arith)

pub log_table-HasCells : (n m : ℕ) (defaults : Dict Value) → HasCells (log_table n m defaults)
unfolding log_table
log_table-HasCells n m defaults a b ha hb = (
  [],
  ground (
    arith,
    get_elem?-replicate n a (replicate {A = Dict Value} m []) ha,
    get_elem?-replicate {A = Dict Value} m b [] hb,
  ),
)

-- The cells of a row from one column on, for a number of columns.
abbrev pub touched : ℕ → ℕ → ℕ → ℕ → ℕ → Bool
touched row first rounds a b = (a == row) && (leb first b && ltb b (first + rounds))

-- The definition of a cell after those cells have been redefined.
abbrev pub redefined : LogTable → Dict Value → ℕ → ℕ → ℕ → ℕ → ℕ → Option (Dict Value)
redefined t kwargs row first rounds a b = elim (cell? t.row_definitions a b) [
  | none ↦ none
  | some d ↦ some (if touched row first rounds a b then redefine t kwargs d else d)
]

module _ (row : ℕ) (kwargs : Dict Value) where
  cell?-update_cell :
      (j : ℕ) (t : LogTable) (a b : ℕ)
      → Defined t row j
      → cell? (update_cell row j kwargs t).row_definitions a b ≡ redefined t kwargs row j 1 a b
  unfolding update_cell
  cell?-update_cell j t a b (d, e) = elim (ℕ_discrete row a) [
    | no ne ↦
        ground
          (arith, e, cell?-set_cell_other t.row_definitions row j (redefine t kwargs d) d e a b ne)
    | yes same_row ↦ elim (ℕ_discrete j b) [
      | no ne ↦ ground (
        arith,
        e,
        same_row,
        cell?-set_cell_row t.row_definitions row j (redefine t kwargs d) d e b ne,
      )
      | yes same_col ↦ ground (
        arith,
        e,
        same_row,
        same_col,
        cell?-set_cell_self t.row_definitions row j (redefine t kwargs d) d e,
      )
    ]
  ]

-- A table is another after those cells of a row have been redefined: its range and its defaults are
-- the same, and so is each other cell.
pub record Redefines (row : ℕ) (kwargs : Dict Value) (first rounds : ℕ) (t t' : LogTable)
    : Type 0 where
  pub same_rows : t'.num_row ≡ t.num_row
  pub same_cols : t'.num_col ≡ t.num_col
  pub same_defaults : t'.default_param_definition ≡ t.default_param_definition
  pub cells : (a b : ℕ) → cell? t'.row_definitions a b ≡ redefined t kwargs row first rounds a b

pub HasCells-Redefines :
    {row : ℕ} {kwargs : Dict Value} {first rounds : ℕ} {t t' : LogTable}
    → Redefines row kwargs first rounds t t'
    → HasCells t
    → HasCells t'
HasCells-Redefines {row} {kwargs} {first} {rounds} {t} {t'} r h a b ha hb =
    let (d, e) = h a b (rw (← r.same_rows) ha) (rw (← r.same_cols) hb) in
    (
      if touched row first rounds a b then redefine t kwargs d else d,
      r.cells a b ∙ ground (arith, e),
    )

module _ (row : ℕ) (kwargs : Dict Value) where
  kept :
      (j : ℕ) (t : LogTable)
      → Defined t row j
      → ((update_cell row j kwargs t).num_row ≡ t.num_row)
        × ((update_cell row j kwargs t).num_col ≡ t.num_col)
        × ((update_cell row j kwargs t).default_param_definition ≡ t.default_param_definition)
  unfolding update_cell
  kept j t (d, e) = (ground (arith, e), ground (arith, e), ground (arith, e))

  Redefines-update_cell :
      (j : ℕ) (t : LogTable)
      → Defined t row j
      → Redefines row kwargs j 1 t (update_cell row j kwargs t)
  Redefines-update_cell j t h = record {
    same_rows = (kept j t h).0;
    same_cols = (kept j t h).1;
    same_defaults = (kept j t h).2;
    cells = λ a b. cell?-update_cell row kwargs j t a b h;
  }

  same_redefine :
      (t t' : LogTable) (d : Dict Value)
      → t'.default_param_definition ≡ t.default_param_definition
      → redefine t' kwargs d ≡ redefine t kwargs d
  unfolding redefine
  same_redefine t t' d e = rw e refl

  Redefines-step :
      (j rounds : ℕ) (t t₁ t' : LogTable)
      → Redefines row kwargs j 1 t t₁
      → Redefines row kwargs (suc j) rounds t₁ t'
      → Redefines row kwargs j (suc rounds) t t'
  Redefines-step j rounds t t₁ t' r q = record {
    same_rows = q.same_rows ∙ r.same_rows;
    same_cols = q.same_cols ∙ r.same_cols;
    same_defaults = q.same_defaults ∙ r.same_defaults;
    cells = λ a b. q.cells a b ∙ elim (Option-cases (cell? t.row_definitions a b)) [
      | inl e ↦ ground (arith, r.cells a b, e)
      | inr (d, e) ↦ ground (arith, r.cells a b, e, same_redefine t t₁ d r.same_defaults)
    ];
  }

  update_cells-Redefines :
      (rounds j : ℕ) (t : LogTable)
      → HasCells t
      → row < t.num_row
      → rounds ≤ t.num_col - j
      → (t' : LogTable) × (update_cells rounds row j kwargs t ≡ ok t')
        × Redefines row kwargs j rounds t t'
  unfolding update_cells
  update_cells-Redefines zero j t h hr fits = (
    t,
    refl,
    record {
      same_rows = refl;
      same_cols = refl;
      same_defaults = refl;
      cells = λ a b. elim (Option-cases (cell? t.row_definitions a b)) [
        | inl e ↦ ground (arith, e)
        | inr (d, e) ↦ ground (arith, e)
      ];
    },
  )
  update_cells-Redefines (suc rounds) j t h hr fits =
      let r = Redefines-update_cell j t (h row j hr (omega arith)) in
      let (t', done, q) =
        update_cells-Redefines rounds (suc j) (update_cell row j kwargs t) (HasCells-Redefines r h)
          (rw r.same_rows hr) (rw r.same_cols (omega arith)) in
      (
        t',
        ground (arith, lt→ltb j t.num_col (omega arith), done),
        Redefines-step j rounds t _ t' r q,
      )

  -- For a row in the range, a last column in the range and a table whose cells in the range are
  -- there, update_row_definition returns. In the new table the cells of that row from the first to
  -- the last column have their old definition, updated by the table's defaults and then by the
  -- arguments; each other cell is unchanged, as are the range and the defaults. A first column
  -- behind the last changes nothing.
  pub update_row_definition_lem :
      (first last : ℕ) (t : LogTable)
      → HasCells t
      → row < t.num_row
      → last < t.num_col
      → (t' : LogTable) × (update_row_definition row first last kwargs t ≡ ok t')
        × Redefines row kwargs first (last + 1 - first) t t'
  unfolding update_row_definition
  update_row_definition_lem first last t h hr hl =
      let (t', done, r) = update_cells-Redefines (last + 1 - first) first t h hr (omega arith) in
      (t', ground (arith, lt→ltb row t.num_row hr, done), r)

  num_col-update_cell : (j : ℕ) (t : LogTable) → (update_cell row j kwargs t).num_col ≡ t.num_col
  unfolding update_cell
  num_col-update_cell j t = elim (Option-cases (cell? t.row_definitions row j)) [
    | inl e ↦ ground (arith, e)
    | inr (d, e) ↦ ground (arith, e)
  ]

  update_cells-out :
      (rounds j : ℕ) (t : LogTable)
      → t.num_col < j + suc rounds
      → update_cells (suc rounds) row j kwargs t ≡ raise assertion_error
  unfolding update_cells
  update_cells-out zero j t out = ground arith
  update_cells-out (suc rounds) j t out = ground (
    arith,
    update_cells-out rounds (suc j) (update_cell row j kwargs t)
        (rw (num_col-update_cell j t) (omega arith)),
  )

  -- update_row_definition raises an AssertionError for a row out of range, and for a last column out
  -- of range unless the first column stands behind the last.
  pub update_row_definition-out :
      (first last : ℕ) (t : LogTable)
      → (t.num_row ≤ row) ⊎ ((first ≤ last) × (t.num_col ≤ last))
      → update_row_definition row first last kwargs t ≡ raise assertion_error
  unfolding update_row_definition
  update_row_definition-out first last t (inl out) = ground arith
  update_row_definition-out first last t (inr (some_round, out)) =
      let rounds : last + 1 - first ≡ suc (last - first) = omega arith in
      elim (Bool-cases (ltb row t.num_row)) [
        | inl e ↦ rw (e, rounds) (update_cells-out (last - first) first t (omega arith))
        | inr e ↦ ground (arith, e)
      ]
