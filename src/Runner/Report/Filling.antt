-- ===== src/Runner/Report/Filling.antt =====
-- Cells of a matrix under assignments.
use fgnn_artifacts.Prelude.{
  ℕ, String, ◌≡◌, ◌≢◌, Option, some, List, get_elem?, set, get_elem?-set_self, get_elem?-set_ne,
  ℕ_discrete, Option-cases, inl, inr, arith,
}
use fgnn_artifacts.Runner.LogTable.{cell?, set_cell}
use fgnn_artifacts.Runner.Report.{add, add_ref}

module _ {ℓ} {A : Type ℓ} (rows : List (List A)) (i j : ℕ) (v x : A)
    (there : cell? rows i j ≡ some x) where
  pub cell?-set_cell_self : cell? (set_cell rows i j v) i j ≡ some v
  cell?-set_cell_self = elim (Option-cases (get_elem? rows i)) [
    | inl e ↦ ground arith
    | inr (row, e) ↦
        ground (arith, get_elem?-set_self row j v x, get_elem?-set_self rows i (set row j v) row e)
  ]

  pub cell?-set_cell_row : (b : ℕ) → j ≢ b → cell? (set_cell rows i j v) i b ≡ cell? rows i b
  cell?-set_cell_row b ne = elim (Option-cases (get_elem? rows i)) [
    | inl e ↦ ground arith
    | inr (row, e) ↦
        ground (arith, get_elem?-set_ne row j b v ne, get_elem?-set_self rows i (set row j v) row e)
  ]

  pub cell?-set_cell_other : (a b : ℕ) → i ≢ a → cell? (set_cell rows i j v) a b ≡ cell? rows a b
  cell?-set_cell_other a b ne = elim (Option-cases (get_elem? rows i)) [
    | inl e ↦ ground arith
    | inr (row, e) ↦ ground (arith, get_elem?-set_ne rows i a (set row j v) ne)
  ]

-- A cell that exists, and one that holds a value.
abbrev pub Known {ℓ} : {A : Type ℓ} → List (List A) → ℕ → ℕ → Type ℓ
Known {A = A} rows a b = (x : A) × (cell? rows a b ≡ some x)

abbrev pub Filled : List (List (Option String)) → ℕ → ℕ → Type 0
Filled rows a b = (v : String) × (cell? rows a b ≡ some (some v))

-- Assigning a value to a cell that exists fills it, and takes no cell and no value away.
module _ (rows : List (List (Option String))) (i j : ℕ) (v : String) (known : Known rows i j) where
  pub Filled-set_cell : Filled (set_cell rows i j (some v)) i j
  Filled-set_cell = (v, cell?-set_cell_self rows i j (some v) known.0 known.1)

  pub Filled-set_cell_kept : (a b : ℕ) → Filled rows a b → Filled (set_cell rows i j (some v)) a b
  Filled-set_cell_kept a b (w, e) = elim (ℕ_discrete i a) [
    | no ne ↦ (w, rw (cell?-set_cell_other rows i j (some v) known.0 known.1 a b ne) e)
    | yes same_row ↦ elim (ℕ_discrete j b) [
      | no ne ↦
          rw (← same_row) (
            w,
            rw (cell?-set_cell_row rows i j (some v) known.0 known.1 b ne) (rw (← same_row) at e),
          )
      | yes same_col ↦ rw (← same_row, ← same_col) Filled-set_cell
    ]
  ]

-- Nor does it take one away from a matrix of anything.
module _ {ℓ} {A : Type ℓ} (rows : List (List A)) (i j : ℕ) (v : A) (known : Known rows i j) where
  pub Known-set_cell_kept : (a b : ℕ) → Known rows a b → Known (set_cell rows i j v) a b
  Known-set_cell_kept a b (w, e) = elim (ℕ_discrete i a) [
    | no ne ↦ (w, rw (cell?-set_cell_other rows i j v known.0 known.1 a b ne) e)
    | yes same_row ↦ elim (ℕ_discrete j b) [
      | no ne ↦
          rw (← same_row)
            (w, rw (cell?-set_cell_row rows i j v known.0 known.1 b ne) (rw (← same_row) at e))
      | yes same_col ↦
          rw (← same_row, ← same_col) (v, cell?-set_cell_self rows i j v known.0 known.1)
    ]
  ]

-- A row of references that exists.
abbrev pub Listed : List (List String) → ℕ → Type 0
Listed refs a = (xs : List String) × (get_elem? refs a ≡ some xs)

pub Listed-add_ref :
    (refs : List (List String)) (i : ℕ) (ref : String) (a : ℕ)
    → Listed refs a
    → Listed (add_ref i ref refs) a
unfolding add_ref
Listed-add_ref refs i ref a (xs, e) = elim (ℕ_discrete i a) [
  | yes same ↦ (add ref xs, ground (arith, same, e, get_elem?-set_self refs i (add ref xs) xs))
  | no ne ↦ elim (Option-cases (get_elem? refs i)) [
    | inl out ↦ (xs, ground (arith, out, e))
    | inr (ys, here) ↦ (xs, ground (arith, here, e, get_elem?-set_ne refs i a (add ref ys) ne))
  ]
]
