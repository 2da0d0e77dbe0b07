-- ===== src/AutoRunner/Common.antt =====
-- example/auto_runner/common.py: the list that every script starts from. The methods that build tables
-- and lists have the text of those in exp/common/runner_helper2.py, which Runner models, but for the
-- references to logs that a table keeps.
use fgnn_artifacts.Prelude.{String, [], ◌∷◌}
use fgnn_artifacts.Runner.Value.{App, gcn, graphsage, pinsage, wide}
use fgnn_artifacts.AutoRunner.Datasets.{Dataset, products, papers100m, uk_2006_05, twitter}
use fgnn_artifacts.Runner.RunConfig.{RunConfig, run_config}
use fgnn_artifacts.Runner.ConfigList.{ConfigList}

base : App → Dataset → RunConfig
unfolding run_config
base a d = run_config a (("dataset", wide d) ∷ [])

-- `ConfigList(test_group_name)`. This class has no counter of failures: the field stays 0.
unfoldable pub config_list : String → ConfigList
unfolding base
config_list name = record {
  name = name;
  conf_list =
      base gcn products
      ∷ base gcn papers100m
      ∷ base gcn uk_2006_05
      ∷ base gcn twitter
      ∷ base graphsage products
      ∷ base graphsage papers100m
      ∷ base graphsage uk_2006_05
      ∷ base graphsage twitter
      ∷ base pinsage products
      ∷ base pinsage papers100m
      ∷ base pinsage uk_2006_05
      ∷ base pinsage twitter
      ∷ [];
  fail_count = 0;
}
