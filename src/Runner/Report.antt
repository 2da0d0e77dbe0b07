-- ===== src/Runner/Report.antt =====
-- ConfigList.parse_logs: the cells of a table filled from the logs.
pub mod Cores
pub mod Filling
pub mod Growth
pub mod Total
use fgnn_artifacts.Prelude.{
  ℕ, zero, suc, String, ◌<>◌, Bool, true, false, ◌||◌, ◌&&◌, Option, none, some, List, [], ◌∷◌,
  ◌++◌, get_elem?, set, ◌==◌, ◌=ˢ◌, text_discrete, if◌then◌else◌, Result, ok, raise, ◌>>=◌, assert,
  each_below, assertion_error, index_error, type_error,
}
use fgnn_artifacts.Prelude.Dict.{Dict}
use fgnn_artifacts.Prelude.Text.{path_join, join, short_ref}
use fgnn_artifacts.Runner.Os.{Os, Io, bind, lift, write_file, pure}
use fgnn_artifacts.Runner.Value.{Value}
use fgnn_artifacts.Runner.LogTable.{LogTable, cell?, set_cell}
use fgnn_artifacts.Runner.RunConfig
use fgnn_artifacts.Runner.RunConfig.{RunConfig, parse_log, test_result}
use fgnn_artifacts.Runner.ConfigList
use fgnn_artifacts.Runner.ConfigList.{ConfigList, with_list}

-- The list after a change of the first configuration that agrees with the parameters.
unfoldable pub replace_match : Dict Value → RunConfig → List RunConfig → List RunConfig
unfolding RunConfig.match
replace_match params conf' [] = []
replace_match params conf' (conf ∷ confs) =
    let rest = replace_match params conf' confs in
    if RunConfig.match params conf then conf' ∷ confs else conf ∷ rest

unfoldable pub is_member : String → List String → Bool
is_member x [] = false
is_member x (y ∷ ys) = (x =ˢ y) || is_member x ys

-- `set.add`
unfoldable pub add : String → List String → List String
unfolding is_member
add x xs = if is_member x xs then xs else xs ++ x ∷ []

pub record Progress : Type 0 where
  pub confs : List RunConfig
  pub table : LogTable
  pub out : String

unfoldable pub add_ref : ℕ → String → List (List String) → List (List String)
unfolding add
add_ref i ref refs = elim (get_elem? refs i) [ none ↦ refs | some xs ↦ set refs i (add ref xs) ]

-- The value of a column that has no definition is the default of `test_results`.
unfoldable pub metric_of : Option String → RunConfig → String × RunConfig
unfolding test_result
metric_of none c = ("X", c)
metric_of (some metric) c = test_result metric c

-- The configuration that a row stands for: the source asserts that there is exactly one.
unfoldable pub the_match : Dict Value → List RunConfig → Result RunConfig
unfolding ConfigList.match
the_match row_def confs = elim (ConfigList.match row_def confs) [
  | [] ↦ raise assertion_error
  | conf ∷ [] ↦ ok conf
  | _ ∷ _ ∷ _ ↦ raise assertion_error
]

unfoldable pub record_cell : ℕ → ℕ → String → RunConfig → String → LogTable → LogTable
unfolding add_ref
record_cell i j value conf ref t = record t {
  cells = set_cell t.cells i j (some value);
  data_configs = set_cell t.data_configs i j conf.full_configs;
  data_refs = add_ref i ref t.data_refs;
}

abbrev is_there {ℓ} : {A : Type ℓ} → Option A → Bool
is_there none = false
is_there (some _) = true

-- The indexes that `record_cell` writes to are in range.
abbrev pub has_places : ℕ → ℕ → LogTable → Bool
has_places i j t =
    is_there (cell? t.cells i j)
    && (is_there (cell? t.data_configs i j) && is_there (get_elem? t.data_refs i))

module _ (os : Os) (left_wrap right_wrap sep : String) (s : os.State) where
  -- The body of the inner loop. `s` is the system while the logs are read.
  unfoldable pub parse_cell : ℕ → ℕ → Progress → Result Progress
  unfolding the_match metric_of replace_match record_cell
  parse_cell i j p = elim (cell? p.table.row_definitions i j) [
    | none ↦ raise index_error
    | some row_def ↦ elim (get_elem? p.table.col_definitions j) [
      | none ↦ raise index_error
      | some col_def ↦ do
        found ← the_match row_def p.confs
        let parsed = parse_log os found s
        let (value, conf) = metric_of col_def parsed
        elim conf.std_out_log [
          | none ↦ raise type_error
          | some path ↦
              if has_places i j p.table
              then ok (record {
                confs = replace_match row_def conf p.confs;
                table = record_cell i j value conf (short_ref path) p.table;
                out =
                    p.out <> ((if j == 0 then "" else sep) <> (left_wrap <> (value <> right_wrap)));
              })
              else raise index_error
        ]
    ]
  ]

  -- `for j in range(num_col)`, by the columns left.
  unfoldable pub parse_row : ℕ → ℕ → ℕ → Progress → Result Progress
  unfolding parse_cell
  parse_row zero i j p = ok p
  parse_row (suc rounds) i j p = parse_cell i j p >>= parse_row rounds i (suc j)

  unfoldable pub end_row : ℕ → Progress → Progress
  unfolding join
  end_row i p =
      let refs : List String = elim (get_elem? p.table.data_refs i) [ none ↦ [] | some xs ↦ xs ] in
      record p { out = p.out <> ("  # " <> (join " " (os.set_order refs) <> "\n")) }

  -- `for i in range(num_row)`, by the rows left.
  unfoldable pub parse_rows : ℕ → ℕ → Progress → Result Progress
  unfolding parse_row end_row
  parse_rows zero i p = ok p
  parse_rows (suc rounds) i p =
      parse_row p.table.num_col i 0 p >>= λ p'. parse_rows rounds (suc i) (end_row i p')

abbrev pub result_path : String → String
result_path logdir = path_join logdir "test_result.txt"

-- `parse_logs(logtable, logdir, left_wrap, right_wrap, sep)`: the file is opened first, and its
-- content stands when the loops are done.
unfoldable pub parse_logs :
    (os : Os)
    → LogTable
    → String
    → String
    → String
    → String
    → ConfigList
    → Io os (ConfigList × LogTable)
unfolding parse_rows
parse_logs os table logdir left_wrap right_wrap sep cl s = elim (assert table.is_finalized) [
  | raise e ↦ raise e
  | ok _ ↦
      let s₁ = (os.system ("mkdir -p " <> logdir) s).1 in
      bind os (write_file os (result_path logdir) "")
        (λ _ s₂.
          elim (parse_rows os left_wrap right_wrap sep s₂ table.num_row 0
            (record { confs = cl.conf_list; table = table; out = "" })) [
              | raise e ↦ raise e
              | ok p ↦
                  bind os (write_file os (result_path logdir) p.out)
                    (λ _. pure os (with_list cl p.confs, p.table)) s₂
            ])
        s₁
]

-- Each cell in the range of the first table holds a text in the second.
abbrev has_text : LogTable → ℕ → ℕ → Bool
has_text t i j = elim (cell? t.cells i j) [ some (some _) ↦ true | _ ↦ false ]

unfoldable pub is_filled : LogTable → LogTable → Bool
unfolding each_below
is_filled t t' = each_below t.num_row (λ i. each_below t.num_col (has_text t' i))
