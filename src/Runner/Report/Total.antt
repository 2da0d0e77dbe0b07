-- ===== src/Runner/Report/Total.antt =====
-- When each row definition of a table stands for one configuration that has a log, parse_logs
-- raises nothing but an OSError, and fills every cell.
use fgnn_artifacts.Prelude.{
  ℕ, zero, suc, ◌+◌, ◌≤◌, ◌<◌, String, ◌<>◌, ◌≡◌, refl, ap, sym, ◌∙◌, ◌⊎◌, inl, inr, true, Option,
  some, List, get_elem?, ◌==◌, if◌then◌else◌, Result, ok, ◌>>=◌, ℕ_discrete, arith,
  each_below_intro,
}
use fgnn_artifacts.Prelude.Dict.{Dict}
use fgnn_artifacts.Prelude.Text.{short_ref}
use fgnn_artifacts.Runner.Os.{Os, WritesAll}
use fgnn_artifacts.Runner.Value.{Value}
use fgnn_artifacts.Runner.LogTable.{LogTable, cell?}
use fgnn_artifacts.Runner.RunConfig.{RunConfig, parse_log}
use fgnn_artifacts.Runner.RunConfig.Parsing.{Core, core, core-parse_log}
use fgnn_artifacts.Runner.ConfigList.{ConfigList, with_list}
use fgnn_artifacts.Runner.Report.{
  Progress, the_match, metric_of, replace_match, record_cell, parse_cell, parse_row, end_row,
  parse_rows, parse_logs, is_filled, result_path,
}
use fgnn_artifacts.Runner.Report.Cores.{cores, cores-replace_match}
use fgnn_artifacts.Runner.Report.Growth.{
  HasOne, HasOne-cores, Grows, Grows-refl, Grows-trans, core-metric_of,
}
use fgnn_artifacts.Runner.Report.Filling.{
  Known, Filled, Listed, Listed-add_ref, Filled-set_cell, Filled-set_cell_kept, Known-set_cell_kept,
}

-- The table has a column at the index, with or without the name of a metric.
abbrev Headed : LogTable → ℕ → Type 0
Headed t j = (column : Option String) × (get_elem? t.col_definitions j ≡ some column)

-- That, and the lists beside the cells have the place.
abbrev pub Placed : LogTable → ℕ → ℕ → Type 0
Placed t i j = Headed t j × Known t.data_configs i j × Listed t.data_refs i

module _ (os : Os) (left_wrap right_wrap sep : String) (s : os.State) where
  abbrev cell_of : ℕ → ℕ → Progress → Result Progress
  cell_of = parse_cell os left_wrap right_wrap sep s

  -- The cell can be parsed: it exists, and its row definition stands for one configuration.
  record CanParse (i j : ℕ) (p : Progress) : Type 0 where
    row_def : Dict Value
    defined : cell? p.table.row_definitions i j ≡ some row_def
    one : HasOne row_def p.confs
    there : Known p.table.cells i j
    column : Option String
    headed : get_elem? p.table.col_definitions j ≡ some column
    config : Known p.table.data_configs i j
    listed : Listed p.table.data_refs i

  module _ (i j : ℕ) (p : Progress) (can : CanParse i j p) where
    abbrev read : String × RunConfig
    read = metric_of can.column (parse_log os can.one.conf s)

    core-read : core read.1 ≡ core can.one.conf
    core-read = core-metric_of can.column _ ∙ core-parse_log os can.one.conf s

    abbrev next : Progress
    next = record {
      confs = replace_match can.row_def read.1 p.confs;
      table = record_cell i j read.0 read.1 (short_ref can.one.path) p.table;
      out = p.out <> ((if j == 0 then "" else sep) <> (left_wrap <> (read.0 <> right_wrap)));
    }

    parse_cell-next : cell_of i j p ≡ ok next
    unfolding parse_cell the_match
    parse_cell-next =
        let logged : read.1.std_out_log ≡ some can.one.path =
          ap (λ (k : Core). k.log) core-read ∙ can.one.logged in
        ground
          (arith, can.defined, can.headed, can.one.only, can.there.1, can.config.1, can.listed.1)

    Grows-next : Grows p next
    unfolding record_cell
    Grows-next = record {
      same_cores =
          cores-replace_match can.row_def p.confs can.one.conf read.1 can.one.only core-read;
      same_rows = refl;
      same_cols = refl;
      same_columns = refl;
      configs = Known-set_cell_kept p.table.data_configs i j read.1.full_configs can.config;
      refs = Listed-add_ref p.table.data_refs i (short_ref can.one.path);
      filled = Filled-set_cell_kept p.table.cells i j read.0 can.there;
      known = Known-set_cell_kept p.table.cells i j (some read.0) can.there;
    }

    Filled-next : Filled next.table.cells i j
    unfolding record_cell
    Filled-next = Filled-set_cell p.table.cells i j read.0 can.there

  CanParse-Grows : {p q : Progress} (i j : ℕ) → Grows p q → CanParse i j p → CanParse i j q
  CanParse-Grows {p} {q} i j g can = record {
    row_def = can.row_def;
    defined = ap (λ (rows : List (List (Dict Value))). cell? rows i j) g.same_rows ∙ can.defined;
    one = HasOne-cores can.row_def p.confs q.confs (sym g.same_cores) can.one;
    there = g.known i j can.there;
    column = can.column;
    headed = ap (λ (cols : List (Option String)). get_elem? cols j) g.same_columns ∙ can.headed;
    config = g.configs i j can.config;
    listed = g.refs i can.listed;
  }

  -- A run of the loops that returned: what it kept, and what it filled.
  record Done (r : Result Progress) (p : Progress) (Range : ℕ → ℕ → Type 0) : Type 0 where
    final : Progress
    returned : r ≡ ok final
    grows : Grows p final
    fills : (a b : ℕ) → Range a b → Filled final.table.cells a b

  abbrev InRow : ℕ → ℕ → ℕ → ℕ → ℕ → Type 0
  InRow rounds i j a b = (a ≡ i) × (j ≤ b) × (b < j + rounds)

  row_range :
      (rounds i j a b : ℕ)
      → InRow (suc rounds) i j a b
      → ((a ≡ i) × (b ≡ j)) ⊎ InRow rounds i (suc j) a b
  row_range rounds i j a b (e, lo, hi) = elim (ℕ_discrete b j) [
    | yes first ↦ inl (e, first)
    | no later ↦ inr (e, omega arith, omega arith)
  ]

  parse_row-Done :
      (rounds i j : ℕ) (p : Progress)
      → ((a b : ℕ) → InRow rounds i j a b → CanParse a b p)
      → Done (parse_row os left_wrap right_wrap sep s rounds i j p) p (InRow rounds i j)
  unfolding parse_row
  parse_row-Done zero i j p can = record {
    final = p;
    returned = refl;
    grows = Grows-refl p;
    fills = λ a b (e, lo, hi). absurd (omega arith);
  }
  parse_row-Done (suc rounds) i j p can =
      let here = can i j (refl, omega arith, omega arith) in
      let q = next i j p here in
      let g = Grows-next i j p here in
      let rest =
        parse_row-Done rounds i (suc j) q
          (λ a b (e, lo, hi). CanParse-Grows a b g (can a b (e, omega arith, omega arith))) in
      record {
        final = rest.final;
        returned = rw (parse_cell-next i j p here) rest.returned;
        grows = Grows-trans g rest.grows;
        fills = λ a b r. elim (row_range rounds i j a b r) [
          | inl (ea, eb) ↦ rw (ea, eb) (rest.grows.filled i j (Filled-next i j p here))
          | inr later ↦ rest.fills a b later
        ];
      }

  Grows-end_row : (i : ℕ) (p : Progress) → Grows p (end_row os left_wrap right_wrap sep s i p)
  unfolding end_row
  Grows-end_row i p = record {
    same_cores = refl;
    same_rows = refl;
    same_cols = refl;
    same_columns = refl;
    configs = λ a b h. h;
    refs = λ a h. h;
    filled = λ a b h. h;
    known = λ a b h. h;
  }

  rows_step :
      (rounds cols i : ℕ) (p q : Progress)
      → p.table.num_col ≡ cols
      → parse_row os left_wrap right_wrap sep s cols i 0 p ≡ ok q
      → parse_rows os left_wrap right_wrap sep s (suc rounds) i p
        ≡ parse_rows os left_wrap right_wrap sep s rounds
            (suc i)
            (end_row os left_wrap right_wrap sep s i q)
  unfolding parse_rows
  rows_step rounds cols i p q e h =
      ap
        (λ (n : ℕ). parse_row os left_wrap right_wrap sep s n i 0 p >>= λ p'.
          parse_rows os left_wrap right_wrap sep s rounds (suc i)
            (end_row os left_wrap right_wrap sep s i p'))
        e
      ∙ ap
          (λ (r : Result Progress). r >>= λ p'.
            parse_rows os left_wrap right_wrap sep s rounds (suc i)
              (end_row os left_wrap right_wrap sep s i p'))
          h

  abbrev InRows : ℕ → ℕ → ℕ → ℕ → ℕ → Type 0
  InRows rounds cols i a b = (i ≤ a) × (a < i + rounds) × (b < cols)

  rows_range :
      (rounds cols i a b : ℕ)
      → InRows (suc rounds) cols i a b
      → InRow cols i 0 a b ⊎ InRows rounds cols (suc i) a b
  rows_range rounds cols i a b (lo, hi, fits) = elim (ℕ_discrete a i) [
    | yes first ↦ inl (first, omega arith, omega arith)
    | no later ↦ inr (omega arith, omega arith, fits)
  ]

  parse_rows-Done :
      (rounds cols i : ℕ) (p : Progress)
      → p.table.num_col ≡ cols
      → ((a b : ℕ) → InRows rounds cols i a b → CanParse a b p)
      → Done (parse_rows os left_wrap right_wrap sep s rounds i p) p (InRows rounds cols i)
  unfolding parse_rows
  parse_rows-Done zero cols i p e can = record {
    final = p;
    returned = refl;
    grows = Grows-refl p;
    fills = λ a b (lo, hi, fits). absurd (omega arith);
  }
  parse_rows-Done (suc rounds) cols i p e can =
      let row =
        parse_row-Done cols i 0 p
          (λ a b (ea, lo, hi). can a b (omega arith, omega arith, omega arith)) in
      let q = end_row os left_wrap right_wrap sep s i row.final in
      let g = Grows-trans row.grows (Grows-end_row i row.final) in
      let rest =
        parse_rows-Done rounds cols (suc i) q (g.same_cols ∙ e)
          (λ a b (lo, hi, fits). CanParse-Grows a b g (can a b (omega arith, omega arith, fits))) in
      record {
        final = rest.final;
        returned = rows_step rounds cols i p row.final e row.returned ∙ rest.returned;
        grows = Grows-trans g rest.grows;
        fills = λ a b r. elim (rows_range rounds cols i a b r) [
          | inl this ↦
              rest.grows.filled a b ((Grows-end_row i row.final).filled a b (row.fills a b this))
          | inr later ↦ rest.fills a b later
        ];
      }

  -- The loops of parse_logs over a whole table.
  pub parse_rows_lem :
      (t : LogTable) (confs : List RunConfig)
      → ((i j : ℕ)
          → i < t.num_row
          → j < t.num_col
          → (d : Dict Value) × (cell? t.row_definitions i j ≡ some d)
            × HasOne d confs
            × Known t.cells i j
            × Placed t i j)
      → (p : Progress) × (parse_rows os left_wrap right_wrap sep s t.num_row 0
            (record { confs = confs; table = t; out = "" })
          ≡ ok p)
        × ((i j : ℕ) → i < t.num_row → j < t.num_col → Filled p.table.cells i j)
        × (cores p.confs ≡ cores confs)
  parse_rows_lem t confs ready =
      let start : Progress = record { confs = confs; table = t; out = "" } in
      let done = parse_rows-Done t.num_row t.num_col 0 start refl (λ a b (lo, hi, fits).
        let (d, defined, one, there, ((column, headed), config, listed)) =
          ready a b (omega arith) fits in
        record {
          row_def = d;
          defined = defined;
          one = one;
          there = there;
          column = column;
          headed = headed;
          config = config;
          listed = listed;
        }) in
      (
        done.final,
        done.returned,
        λ i j hi fits. done.fills i j (omega arith, omega arith, fits),
        done.grows.same_cores,
      )

is_filled_lem :
    (t t' : LogTable)
    → ((i j : ℕ) → i < t.num_row → j < t.num_col → Filled t'.cells i j)
    → is_filled t t' ≡ true
unfolding is_filled
is_filled_lem t t' h =
    each_below_intro t.num_row _
      λ i hi. each_below_intro t.num_col _ λ j hj. let (v, e) = h i j hi hj in ground (arith, e)

module _ (os : Os) (writes : WritesAll os) where
  -- On a system where every write succeeds, parse_logs returns for a finalized table in whose range
  -- each column and each cell exists, with its places for options and references, and each cell has a
  -- row definition that stands for exactly one
  -- configuration, which has a log. Whatever the logs hold, each cell in the range then holds a text.
  pub parse_logs_total :
      (t : LogTable) (logdir left_wrap right_wrap sep : String) (cl : ConfigList) (s : os.State)
      → t.is_finalized ≡ true
      → ((i j : ℕ)
          → i < t.num_row
          → j < t.num_col
          → (d : Dict Value) × (cell? t.row_definitions i j ≡ some d)
            × HasOne d cl.conf_list
            × Known t.cells i j
            × Placed t i j)
      → (cl' : ConfigList) × (t' : LogTable) × (s' : os.State) × (parse_logs os t logdir left_wrap
            right_wrap sep cl s
          ≡ ok ((cl', t'), s'))
        × (is_filled t t' ≡ true)
  unfolding parse_logs
  parse_logs_total t logdir left_wrap right_wrap sep cl s final ready =
      let s₁ = (os.system ("mkdir -p " <> logdir) s).1 in
      let (s₂, opened) = writes (result_path logdir) "" s₁ in
      let (p, parsed, filled, kept) =
        parse_rows_lem os left_wrap right_wrap sep s₂ t cl.conf_list ready in
      let (s₃, written) = writes (result_path logdir) p.out s₂ in
      (
        with_list cl p.confs,
        p.table,
        s₃,
        ground (arith, opened, parsed, written),
        is_filled_lem t p.table filled,
      )
