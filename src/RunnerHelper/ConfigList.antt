-- ===== src/RunnerHelper/ConfigList.antt =====
-- class ConfigList and percent_gen of exp/common/runner_helper.py. An attribute of a configuration
-- stands here as the function that sets it, and in `select` as the one that tests it.
use fgnn_artifacts.Prelude.{
  ℕ, zero, suc, ◌+◌, ◌-◌, ◌/◌, String, Bool, true, List, [], ◌∷◌, ◌++◌, map, retain,
}
use fgnn_artifacts.Runner.Value.{gcn}
use fgnn_artifacts.RunnerHelper.Options.{products, cache_by_degree, Arch}
use fgnn_artifacts.RunnerHelper.RunConfig.{RunConfig, run_config, Percent, part}

-- The multiples, by the rounds of the loop that are left.
unfoldable pub percents_from : ℕ → ℕ → ℕ → List Percent
percents_from zero i gap = []
percents_from (suc rounds) i gap = part i ∷ percents_from rounds (i + gap) gap

-- `percent_gen(lb, ub, gap)` for gap > 0: the loop runs while `i <= ub`.
unfoldable pub percent_gen : ℕ → ℕ → ℕ → List Percent
unfolding percents_from
percent_gen lb ub gap = percents_from ((ub + gap - lb) / gap) lb gap

-- `self.conf_list`
abbrev pub ConfigList : Type 0
ConfigList = List RunConfig

-- `ConfigList()`. The list's first cache size is the float 1.0.
unfoldable pub config_list : String → ConfigList
unfolding run_config
config_list log_dir = run_config gcn products cache_by_degree (part 100) true log_dir ∷ []

-- `ConfigList.Empty()`
abbrev pub empty : ConfigList
empty = []

-- `select(key, val_indicator)`
unfoldable pub select : (RunConfig → Bool) → ConfigList → ConfigList
select is_selected cfgs = retain is_selected cfgs

-- `cfg.arch = arch`
abbrev pub set_arch : Arch → RunConfig → RunConfig
set_arch v c = record c { arch = v }

-- `override_arch(arch)`
unfoldable pub override_arch : Arch → ConfigList → ConfigList
override_arch arch cfgs = map (set_arch arch) cfgs

unfoldable pub copies {ℓ} :
    {A : Type ℓ} → (A → RunConfig → RunConfig) → List A → ConfigList → ConfigList
copies set_key [] cfgs = []
copies set_key (val ∷ vals) cfgs = map (set_key val) cfgs ++ copies set_key vals cfgs

-- `override(key, val_list)`
unfoldable pub override {ℓ} :
    {A : Type ℓ} → (A → RunConfig → RunConfig) → List A → ConfigList → ConfigList
unfolding copies
override set_key [] cfgs = cfgs
override set_key (val ∷ vals) cfgs = copies set_key (val ∷ vals) cfgs

-- `concat(another_list)`
unfoldable pub concat : ConfigList → ConfigList → ConfigList
concat another cfgs = cfgs ++ another
