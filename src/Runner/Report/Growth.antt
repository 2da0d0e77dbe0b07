-- ===== src/Runner/Report/Growth.antt =====
-- What the loops of parse_logs keep from round to round.
use mathlib.Core.List.{cons-eq-cons}
use fgnn_artifacts.Prelude.{ℕ, String, ◌≡◌, refl, ap, sym, ◌∙◌, Option, none, some, List, [], ◌∷◌}
use fgnn_artifacts.Prelude.Dict.{Dict}
use fgnn_artifacts.Runner.Value.{Value}
use fgnn_artifacts.Runner.RunConfig.{RunConfig}
use fgnn_artifacts.Runner.RunConfig.Parsing.{Core, core, core-test_result}
use fgnn_artifacts.Runner.ConfigList.{match}
use fgnn_artifacts.Runner.Report.{Progress, metric_of}
use fgnn_artifacts.Runner.Report.Cores.{cores, cores-match}
use fgnn_artifacts.Runner.Report.Filling.{Known, Filled, Listed}

-- The parameters stand for one configuration of the list, and it has a log file.
pub record HasOne (row_def : Dict Value) (confs : List RunConfig) : Type 0 where
  pub conf : RunConfig
  pub path : String
  pub only : match row_def confs ≡ conf ∷ []
  pub logged : conf.std_out_log ≡ some path

one_core :
    (xs : List RunConfig) (c : Core)
    → cores xs ≡ c ∷ []
    → (x : RunConfig) × (xs ≡ x ∷ []) × (core x ≡ c)
one_core [] c e = cc
one_core (x ∷ []) c e = (x, refl, (cons-eq-cons.0 e).0)
one_core (x ∷ y ∷ xs) c e = cc

pub HasOne-cores :
    (row_def : Dict Value) (xs ys : List RunConfig)
    → cores xs ≡ cores ys
    → HasOne row_def xs
    → HasOne row_def ys
HasOne-cores row_def xs ys e h =
    let (y, only, same) =
      one_core (match row_def ys) (core h.conf)
        (sym (cores-match row_def xs ys e) ∙ ap cores h.only) in
    record {
      conf = y;
      path = h.path;
      only = only;
      logged = ap (λ (k : Core). k.log) same ∙ h.logged;
    }

-- What the rounds of the loops keep: the definitions, the options and logs of the configurations,
-- and every cell and value that is there.
pub record Grows (p p' : Progress) : Type 0 where
  pub same_cores : cores p'.confs ≡ cores p.confs
  pub same_rows : p'.table.row_definitions ≡ p.table.row_definitions
  pub same_cols : p'.table.num_col ≡ p.table.num_col
  pub same_columns : p'.table.col_definitions ≡ p.table.col_definitions
  pub configs : (a b : ℕ) → Known p.table.data_configs a b → Known p'.table.data_configs a b
  pub refs : (a : ℕ) → Listed p.table.data_refs a → Listed p'.table.data_refs a
  pub filled : (a b : ℕ) → Filled p.table.cells a b → Filled p'.table.cells a b
  pub known : (a b : ℕ) → Known p.table.cells a b → Known p'.table.cells a b

pub Grows-refl : (p : Progress) → Grows p p
Grows-refl p = record {
  same_cores = refl;
  same_rows = refl;
  same_cols = refl;
  same_columns = refl;
  configs = λ a b h. h;
  refs = λ a h. h;
  filled = λ a b h. h;
  known = λ a b h. h;
}

pub Grows-trans : {p q r : Progress} → Grows p q → Grows q r → Grows p r
Grows-trans g h = record {
  same_cores = h.same_cores ∙ g.same_cores;
  same_rows = h.same_rows ∙ g.same_rows;
  same_cols = h.same_cols ∙ g.same_cols;
  same_columns = h.same_columns ∙ g.same_columns;
  configs = λ a b k. h.configs a b (g.configs a b k);
  refs = λ a k. h.refs a (g.refs a k);
  filled = λ a b f. h.filled a b (g.filled a b f);
  known = λ a b k. h.known a b (g.known a b k);
}

pub core-metric_of : (metric : Option String) (c : RunConfig) → core (metric_of metric c).1 ≡ core c
unfolding metric_of
core-metric_of none c = refl
core-metric_of (some metric) c = core-test_result metric c
