-- ===== src/Runner/Report/Cores.antt =====
-- Parsing logs changes neither the options of a configuration nor its log files, and whether a row
-- matches depends on nothing else.
use mathlib.Core.List.{cons-eq-cons}
use fgnn_artifacts.Prelude.{◌≡◌, refl, ap, List, [], ◌∷◌, map, ok, arith}
use fgnn_artifacts.Prelude.Dict.{Dict, lookup}
use fgnn_artifacts.Runner.Value.{Value}
use fgnn_artifacts.Runner.RunConfig
use fgnn_artifacts.Runner.RunConfig.{RunConfig}
use fgnn_artifacts.Runner.RunConfig.Parsing.{Core, core}
use fgnn_artifacts.Runner.ConfigList
use fgnn_artifacts.Runner.Report.{replace_match, the_match}

pub match-same_configs :
    (params : Dict Value) (c d : RunConfig)
    → c.configs ≡ d.configs
    → RunConfig.match params c ≡ RunConfig.match params d
unfolding RunConfig.match
match-same_configs [] c d e = refl
match-same_configs ((k, v) ∷ params) c d e =
    ground (arith, match-same_configs params c d e, ap (lookup k) e)

match-core :
    (params : Dict Value) (c d : RunConfig)
    → core c ≡ core d
    → RunConfig.match params c ≡ RunConfig.match params d
match-core params c d e = match-same_configs params c d (ap (λ (x : Core). x.configs) e)

-- The parts on which the choice of a configuration depends.
abbrev pub cores : List RunConfig → List Core
cores = map core

pub cores-match :
    (params : Dict Value) (xs ys : List RunConfig)
    → cores xs ≡ cores ys
    → cores (ConfigList.match params xs) ≡ cores (ConfigList.match params ys)
unfolding ConfigList.match
cores-match params [] [] e = refl
cores-match params [] (y ∷ ys) e = cc
cores-match params (x ∷ xs) [] e = cc
cores-match params (x ∷ xs) (y ∷ ys) e =
    let (head, rest) = cons-eq-cons.0 e in
    ground (arith, match-core params x y head, cores-match params xs ys rest)

pub the_match-eq :
    (params : Dict Value) (xs : List RunConfig) (c : RunConfig)
    → the_match params xs ≡ ok c
    → ConfigList.match params xs ≡ c ∷ []
unfolding the_match
the_match-eq params xs c h = ground arith

-- Replacing the only match by a configuration with the same core keeps the cores.
pub cores-replace_match :
    (params : Dict Value) (xs : List RunConfig) (c c' : RunConfig)
    → ConfigList.match params xs ≡ c ∷ []
    → core c' ≡ core c
    → cores (replace_match params c' xs) ≡ cores xs
unfolding replace_match ConfigList.match
cores-replace_match params [] c c' h e = cc
cores-replace_match params (x ∷ xs) c c' h e = ground (arith, cores-replace_match params xs c c')
