-- ===== src/Figures/Fig12.antt =====
-- exp/fig12/runner.py: the lists that the script runs, statement by statement.
use fgnn_artifacts.Prelude.{[], ◌∷◌, false, true, String, List}
use fgnn_artifacts.Runner.Value.{gcn, graphsage, pinsage}
use fgnn_artifacts.RunnerHelper.Options.{
  cache_by_random, cache_by_degree, cache_by_presample_1, khop2, twitter, papers100m, uk_2006_05,
  random_walk, weighted_khop_prefix,
}
use fgnn_artifacts.RunnerHelper.ConfigList.{config_list, override, empty, concat, percent_gen}
use fgnn_artifacts.Figures.Phases.{
  set_copy_job, set_sample_job, set_pipeline, set_epoch, set_logdir, set_profile_level,
  set_log_level, set_multi_gpu, set_cache_policy, set_app, set_sample_type, set_dataset,
  set_cache_percent, nothing, Phase,
}

unfoldable pub fig12_phases : String → List Phase
unfolding config_list override concat percent_gen
fig12_phases log_dir =
    let cur_common_base =
      override set_cache_policy (cache_by_random ∷ cache_by_degree ∷ cache_by_presample_1 ∷ []) (
        override set_multi_gpu (true ∷ []) (
          override set_log_level ("error" ∷ []) (
            override set_profile_level (3 ∷ []) (
              override set_logdir ("run-logs" ∷ []) (
                override set_epoch (3 ∷ []) (
                  override set_pipeline (false ∷ []) (
                    override set_sample_job (1 ∷ [])
                      (override set_copy_job (1 ∷ []) (config_list log_dir))))))))) in
    let cfg_list_collector = empty in
    let cur_common_base =
      override set_sample_type (khop2 ∷ []) (override set_app (gcn ∷ []) cur_common_base) in
    let cfg_list_collector =
      concat
        (override set_cache_percent (percent_gen 25 25 1)
          (override set_dataset (twitter ∷ []) cur_common_base))
        cfg_list_collector in
    let cfg_list_collector =
      concat
        (override set_cache_percent (percent_gen 21 21 1)
          (override set_dataset (papers100m ∷ []) cur_common_base))
        cfg_list_collector in
    let cfg_list_collector =
      concat
        (override set_cache_percent (percent_gen 14 14 1)
          (override set_dataset (uk_2006_05 ∷ []) cur_common_base))
        cfg_list_collector in
    let cur_common_base =
      override set_sample_type (khop2 ∷ []) (override set_app (graphsage ∷ []) cur_common_base) in
    let cfg_list_collector =
      concat
        (override set_cache_percent (percent_gen 32 32 1)
          (override set_dataset (twitter ∷ []) cur_common_base))
        cfg_list_collector in
    let cfg_list_collector =
      concat
        (override set_cache_percent (percent_gen 25 25 1)
          (override set_dataset (papers100m ∷ []) cur_common_base))
        cfg_list_collector in
    let cfg_list_collector =
      concat
        (override set_cache_percent (percent_gen 18 18 1)
          (override set_dataset (uk_2006_05 ∷ []) cur_common_base))
        cfg_list_collector in
    let cur_common_base =
      override set_sample_type (random_walk ∷ [])
        (override set_app (pinsage ∷ []) cur_common_base) in
    let cfg_list_collector =
      concat
        (override set_cache_percent (percent_gen 26 26 1)
          (override set_dataset (twitter ∷ []) cur_common_base))
        cfg_list_collector in
    let cfg_list_collector =
      concat
        (override set_cache_percent (percent_gen 22 22 1)
          (override set_dataset (papers100m ∷ []) cur_common_base))
        cfg_list_collector in
    let cfg_list_collector =
      concat
        (override set_cache_percent (percent_gen 13 13 1)
          (override set_dataset (uk_2006_05 ∷ []) cur_common_base))
        cfg_list_collector in
    let cur_common_base =
      override set_sample_type (weighted_khop_prefix ∷ [])
        (override set_app (gcn ∷ []) cur_common_base) in
    let cfg_list_collector =
      concat
        (override set_cache_percent (percent_gen 25 25 1)
          (override set_dataset (twitter ∷ []) cur_common_base))
        cfg_list_collector in
    let cfg_list_collector =
      concat
        (override set_cache_percent (percent_gen 21 21 1)
          (override set_dataset (papers100m ∷ []) cur_common_base))
        cfg_list_collector in
    let phase1 : Phase = record { configs = cfg_list_collector; after = nothing } in phase1 ∷ []
