-- ===== src/Runner/ConfigList.antt =====
-- class ConfigList: the operations that build a list of configurations.
-- A deep copy of a configuration is the same value: no two items of a list share a dict.
pub mod Selection
pub mod Combos
use fgnn_artifacts.Prelude.{
  ℕ, String, Bool, true, false, Option, none, some, List, [], ◌∷◌, ◌++◌, map, ◌=ˢ◌, text_discrete,
  if◌then◌else◌, Result, ok, raise, ◌>>=◌, ◌>>◌, assert,
}
use fgnn_artifacts.Prelude.Dict.{Dict, lookup, insert, update}
use fgnn_artifacts.Runner.Value.{
  App, gcn, graphsage, pinsage, Dataset, products, papers100m, uk_2006_05, twitter, Value, dataset,
  Indicator, contained,
}
use fgnn_artifacts.Runner.RunConfig
use fgnn_artifacts.Runner.RunConfig.{RunConfig, run_config}

pub record ConfigList : Type 0 where
  pub name : String
  pub conf_list : List RunConfig
  pub fail_count : ℕ

base : App → Dataset → RunConfig
unfolding run_config
base a d = run_config a (("dataset", dataset d) ∷ [])

-- `ConfigList(name)`
unfoldable pub config_list : String → ConfigList
unfolding base
config_list name = record {
  name = name;
  conf_list =
      base gcn products
      ∷ base gcn twitter
      ∷ base gcn papers100m
      ∷ base gcn uk_2006_05
      ∷ base graphsage products
      ∷ base graphsage twitter
      ∷ base graphsage papers100m
      ∷ base graphsage uk_2006_05
      ∷ base pinsage products
      ∷ base pinsage twitter
      ∷ base pinsage papers100m
      ∷ base pinsage uk_2006_05
      ∷ [];
  fail_count = 0;
}

abbrev pub with_list : ConfigList → List RunConfig → ConfigList
with_list cl confs = record cl { conf_list = confs }

-- `key in cfg.configs.keys() and cfg.configs[key] in val_indicator`
unfoldable pub selected : String → Indicator → RunConfig → Result Bool
unfolding lookup
selected key val_indicator cfg = elim (lookup key cfg.configs) [
  | none ↦ ok false
  | some v ↦ contained v val_indicator
]

abbrev place : RunConfig → Bool → List RunConfig × List RunConfig → List RunConfig × List RunConfig
place cfg true (newlist, others) = (cfg ∷ newlist, others)
place cfg false (newlist, others) = (newlist, cfg ∷ others)

-- The loop that splits a list into the configurations that a test selects and the others.
unfoldable pub divide :
    (RunConfig → Result Bool) → List RunConfig → Result (List RunConfig × List RunConfig)
divide test [] = ok ([], [])
divide test (cfg ∷ cfgs) = do
  chosen ← test cfg
  parts ← divide test cfgs
  ok (place cfg chosen parts)

unfoldable pub select : String → Indicator → ConfigList → Result ConfigList
unfolding divide selected
select key val_indicator cl = do
  (newlist, _) ← divide (selected key val_indicator) cl.conf_list
  ok (with_list cl newlist)

-- `cfg.configs[key] = val`
unfoldable pub assign : String → Value → RunConfig → RunConfig
unfolding insert
assign key val cfg = record cfg { configs = insert key val cfg.configs }

-- One copy of the list for each value, with the key set to it.
unfoldable pub copies : String → List Value → List RunConfig → List RunConfig
unfolding assign
copies key [] cfgs = []
copies key (val ∷ vals) cfgs = map (assign key val) cfgs ++ copies key vals cfgs

unfoldable pub override : String → List Value → ConfigList → ConfigList
unfolding copies
override key [] cl = cl
override key (val ∷ vals) cl = with_list cl (copies key (val ∷ vals) cl.conf_list)

unfoldable pub combo : String → Indicator → String → List Value → ConfigList → Result ConfigList
unfolding divide selected copies
combo select_key select_val_indicator override_key [] cl = ok cl
combo select_key select_val_indicator override_key (val ∷ vals) cl = do
  (newlist, others) ← divide (selected select_key select_val_indicator) cl.conf_list
  ok (with_list cl (others ++ copies override_key (val ∷ vals) newlist))

-- The argument `select_op`: the methods assert that it is one of the two.
pub data SelectOp : Type 0 where
  all_keys any_key : SelectOp

unfoldable pub select_op : String → Result SelectOp
select_op op = if op =ˢ "and" then ok all_keys else (do assert (op =ˢ "or"); ok any_key)

-- `_list_select(cfg, select_op, select_key_val_dict)`
unfoldable pub list_select : SelectOp → Dict Indicator → RunConfig → Result Bool
unfolding selected
list_select all_keys [] cfg = ok true
list_select all_keys ((key, vals) ∷ d) cfg =
    selected key vals cfg >>= λ found. if found then list_select all_keys d cfg else ok false
list_select any_key [] cfg = ok false
list_select any_key ((key, vals) ∷ d) cfg =
    selected key vals cfg >>= λ found. if found then ok true else list_select any_key d cfg

unfoldable pub multi_combo :
    String → Dict Indicator → String → List Value → ConfigList → Result ConfigList
unfolding select_op divide list_select copies
multi_combo op select_key_val_dict override_key [] cl = do _ ← select_op op; ok cl
multi_combo op select_key_val_dict override_key (val ∷ vals) cl = do
  how ← select_op op
  (newlist, others) ← divide (list_select how select_key_val_dict) cl.conf_list
  ok (with_list cl (others ++ copies override_key (val ∷ vals) newlist))

-- `cfg.configs[k] = v` for the items of a dict, in order.
unfoldable pub assign_all : Dict Value → RunConfig → RunConfig
unfolding update
assign_all vals cfg = record cfg { configs = update cfg.configs vals }

unfoldable pub multi_combo_multi_override :
    String → Dict Indicator → Dict Value → ConfigList → Result ConfigList
unfolding select_op divide list_select assign_all
multi_combo_multi_override op select_key_val_dict [] cl = do _ ← select_op op; ok cl
multi_combo_multi_override op select_key_val_dict (kv ∷ kvs) cl = do
  how ← select_op op
  (newlist, others) ← divide (list_select how select_key_val_dict) cl.conf_list
  ok (with_list cl (others ++ map (assign_all (kv ∷ kvs)) newlist))

-- For each configuration, one copy for each dict of values.
unfoldable pub variants : List (Dict Value) → List RunConfig → List RunConfig
unfolding assign_all
variants ds [] = []
variants ds (cfg ∷ cfgs) = map (λ d. assign_all d cfg) ds ++ variants ds cfgs

unfoldable pub multi_combo_multi_override_list :
    String → Dict Indicator → List (Dict Value) → ConfigList → Result ConfigList
unfolding select_op divide list_select variants
multi_combo_multi_override_list op select_key_val_dict [] cl = do _ ← select_op op; ok cl
multi_combo_multi_override_list op select_key_val_dict (d ∷ ds) cl = do
  how ← select_op op
  (newlist, others) ← divide (list_select how select_key_val_dict) cl.conf_list
  ok (with_list cl (others ++ variants (d ∷ ds) newlist))

-- `match(params)`: the configurations that agree with the parameters.
unfoldable pub match : Dict Value → List RunConfig → List RunConfig
unfolding RunConfig.match
match params [] = []
match params (conf ∷ confs) =
    let rest = match params confs in if RunConfig.match params conf then conf ∷ rest else rest
