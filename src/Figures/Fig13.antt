-- ===== src/Figures/Fig13.antt =====
-- exp/fig13/runner.py: the lists that the script runs, statement by statement.
use fgnn_artifacts.Prelude.{[], ◌∷◌, true, String, List}
use fgnn_artifacts.Runner.Value.{gcn, graphsage, pinsage}
use fgnn_artifacts.RunnerHelper.Options.{
  cache_by_degree, cache_by_presample_1, khop2, twitter, papers100m, uk_2006_05, random_walk,
  weighted_khop_prefix, cache_by_random,
}
use fgnn_artifacts.RunnerHelper.ConfigList.{config_list, override, empty, concat, percent_gen}
use fgnn_artifacts.Figures.Phases.{
  set_copy_job, set_sample_job, set_pipeline, set_epoch, set_num_sampler, set_num_trainer,
  set_logdir, set_profile_level, set_log_level, set_multi_gpu, set_cache_policy, set_app,
  set_sample_type, set_dataset, set_cache_percent, nothing, Phase,
}

unfoldable pub fig13_phases : String → List Phase
unfolding config_list override concat percent_gen
fig13_phases log_dir =
    let cur_common_base = override set_cache_policy (cache_by_degree ∷ []) (
      override set_multi_gpu (true ∷ []) (
        override set_log_level ("error" ∷ []) (
          override set_profile_level (3 ∷ []) (
            override set_logdir ("run-logs" ∷ []) (
              override set_num_trainer (6 ∷ []) (
                override set_num_sampler (2 ∷ []) (
                  override set_epoch (3 ∷ []) (
                    override set_pipeline (true ∷ []) (
                      override set_sample_job (1 ∷ [])
                        (override set_copy_job (1 ∷ []) (config_list log_dir))))))))))) in
    let cfg_list_collector = empty in
    let cur_common_base = override set_cache_policy (cache_by_presample_1 ∷ []) cur_common_base in
    let cur_common_base =
      override set_sample_type (khop2 ∷ []) (override set_app (gcn ∷ []) cur_common_base) in
    let cfg_list_collector =
      concat
        (override set_cache_percent (percent_gen 22 22 1)
          (override set_dataset (twitter ∷ []) cur_common_base))
        cfg_list_collector in
    let cfg_list_collector =
      concat
        (override set_cache_percent (percent_gen 20 20 1)
          (override set_dataset (papers100m ∷ []) cur_common_base))
        cfg_list_collector in
    let cfg_list_collector =
      concat
        (override set_cache_percent (percent_gen 11 11 1)
          (override set_dataset (uk_2006_05 ∷ []) cur_common_base))
        cfg_list_collector in
    let cur_common_base =
      override set_sample_type (khop2 ∷ []) (override set_app (graphsage ∷ []) cur_common_base) in
    let cfg_list_collector =
      concat
        (override set_cache_percent (percent_gen 31 31 1)
          (override set_dataset (twitter ∷ []) cur_common_base))
        cfg_list_collector in
    let cfg_list_collector =
      concat
        (override set_cache_percent (percent_gen 24 24 1)
          (override set_dataset (papers100m ∷ []) cur_common_base))
        cfg_list_collector in
    let cfg_list_collector =
      concat
        (override set_num_trainer (7 ∷ []) (
          override set_num_sampler (1 ∷ []) (
            override set_cache_percent (percent_gen 16 16 1)
              (override set_dataset (uk_2006_05 ∷ []) cur_common_base))))
        cfg_list_collector in
    let cur_common_base =
      override set_sample_type (random_walk ∷ [])
        (override set_app (pinsage ∷ []) cur_common_base) in
    let cfg_list_collector =
      concat
        (override set_num_trainer (7 ∷ []) (
          override set_num_sampler (1 ∷ []) (
            override set_cache_percent (percent_gen 25 25 1)
              (override set_dataset (twitter ∷ []) cur_common_base))))
        cfg_list_collector in
    let cfg_list_collector =
      concat
        (override set_num_trainer (7 ∷ []) (
          override set_num_sampler (1 ∷ []) (
            override set_cache_percent (percent_gen 21 21 1)
              (override set_dataset (papers100m ∷ []) cur_common_base))))
        cfg_list_collector in
    let cfg_list_collector =
      concat
        (override set_num_trainer (7 ∷ []) (
          override set_num_sampler (1 ∷ []) (
            override set_cache_percent (percent_gen 9 9 1)
              (override set_dataset (uk_2006_05 ∷ []) cur_common_base))))
        cfg_list_collector in
    let cur_common_base =
      override set_sample_type (weighted_khop_prefix ∷ [])
        (override set_app (gcn ∷ []) cur_common_base) in
    let cfg_list_collector =
      concat
        (override set_cache_percent (percent_gen 24 24 1)
          (override set_dataset (twitter ∷ []) cur_common_base))
        cfg_list_collector in
    let cfg_list_collector =
      concat
        (override set_cache_percent (percent_gen 21 21 1)
          (override set_dataset (papers100m ∷ []) cur_common_base))
        cfg_list_collector in
    let cur_common_base = override set_cache_policy (cache_by_degree ∷ []) cur_common_base in
    let cur_common_base =
      override set_sample_type (khop2 ∷ []) (override set_app (gcn ∷ []) cur_common_base) in
    let cfg_list_collector =
      concat
        (override set_cache_percent (percent_gen 22 22 1)
          (override set_dataset (twitter ∷ []) cur_common_base))
        cfg_list_collector in
    let cfg_list_collector =
      concat
        (override set_cache_percent (percent_gen 20 20 1)
          (override set_dataset (papers100m ∷ []) cur_common_base))
        cfg_list_collector in
    let cfg_list_collector =
      concat
        (override set_cache_percent (percent_gen 11 11 1)
          (override set_dataset (uk_2006_05 ∷ []) cur_common_base))
        cfg_list_collector in
    let cur_common_base =
      override set_sample_type (khop2 ∷ []) (override set_app (graphsage ∷ []) cur_common_base) in
    let cfg_list_collector =
      concat
        (override set_cache_percent (percent_gen 31 31 1)
          (override set_dataset (twitter ∷ []) cur_common_base))
        cfg_list_collector in
    let cfg_list_collector =
      concat
        (override set_cache_percent (percent_gen 24 24 1)
          (override set_dataset (papers100m ∷ []) cur_common_base))
        cfg_list_collector in
    let cfg_list_collector =
      concat
        (override set_num_trainer (7 ∷ []) (
          override set_num_sampler (1 ∷ []) (
            override set_cache_percent (percent_gen 16 16 1)
              (override set_dataset (uk_2006_05 ∷ []) cur_common_base))))
        cfg_list_collector in
    let cur_common_base =
      override set_sample_type (random_walk ∷ [])
        (override set_app (pinsage ∷ []) cur_common_base) in
    let cfg_list_collector =
      concat
        (override set_num_trainer (7 ∷ []) (
          override set_num_sampler (1 ∷ []) (
            override set_cache_percent (percent_gen 25 25 1)
              (override set_dataset (twitter ∷ []) cur_common_base))))
        cfg_list_collector in
    let cfg_list_collector =
      concat
        (override set_num_trainer (7 ∷ []) (
          override set_num_sampler (1 ∷ []) (
            override set_cache_percent (percent_gen 21 21 1)
              (override set_dataset (papers100m ∷ []) cur_common_base))))
        cfg_list_collector in
    let cfg_list_collector =
      concat
        (override set_num_trainer (7 ∷ []) (
          override set_num_sampler (1 ∷ []) (
            override set_cache_percent (percent_gen 9 9 1)
              (override set_dataset (uk_2006_05 ∷ []) cur_common_base))))
        cfg_list_collector in
    let cur_common_base =
      override set_sample_type (weighted_khop_prefix ∷ [])
        (override set_app (gcn ∷ []) cur_common_base) in
    let cfg_list_collector =
      concat
        (override set_cache_percent (percent_gen 24 24 1)
          (override set_dataset (twitter ∷ []) cur_common_base))
        cfg_list_collector in
    let cfg_list_collector =
      concat
        (override set_cache_percent (percent_gen 21 21 1)
          (override set_dataset (papers100m ∷ []) cur_common_base))
        cfg_list_collector in
    let cur_common_base = override set_cache_policy (cache_by_random ∷ []) cur_common_base in
    let cur_common_base =
      override set_sample_type (khop2 ∷ []) (override set_app (gcn ∷ []) cur_common_base) in
    let cfg_list_collector =
      concat
        (override set_cache_percent (percent_gen 21 21 1)
          (override set_dataset (twitter ∷ []) cur_common_base))
        cfg_list_collector in
    let cfg_list_collector =
      concat
        (override set_cache_percent (percent_gen 18 18 1)
          (override set_dataset (papers100m ∷ []) cur_common_base))
        cfg_list_collector in
    let cfg_list_collector =
      concat
        (override set_cache_percent (percent_gen 10 10 1)
          (override set_dataset (uk_2006_05 ∷ []) cur_common_base))
        cfg_list_collector in
    let cur_common_base =
      override set_sample_type (khop2 ∷ []) (override set_app (graphsage ∷ []) cur_common_base) in
    let cfg_list_collector =
      concat
        (override set_cache_percent (percent_gen 29 29 1)
          (override set_dataset (twitter ∷ []) cur_common_base))
        cfg_list_collector in
    let cfg_list_collector =
      concat
        (override set_cache_percent (percent_gen 24 24 1)
          (override set_dataset (papers100m ∷ []) cur_common_base))
        cfg_list_collector in
    let cfg_list_collector =
      concat
        (override set_num_trainer (7 ∷ []) (
          override set_num_sampler (1 ∷ []) (
            override set_cache_percent (percent_gen 15 15 1)
              (override set_dataset (uk_2006_05 ∷ []) cur_common_base))))
        cfg_list_collector in
    let cur_common_base =
      override set_sample_type (random_walk ∷ [])
        (override set_app (pinsage ∷ []) cur_common_base) in
    let cfg_list_collector =
      concat
        (override set_num_trainer (7 ∷ []) (
          override set_num_sampler (1 ∷ []) (
            override set_cache_percent (percent_gen 20 20 1)
              (override set_dataset (twitter ∷ []) cur_common_base))))
        cfg_list_collector in
    let cfg_list_collector =
      concat
        (override set_num_trainer (7 ∷ []) (
          override set_num_sampler (1 ∷ []) (
            override set_cache_percent (percent_gen 20 20 1)
              (override set_dataset (papers100m ∷ []) cur_common_base))))
        cfg_list_collector in
    let cfg_list_collector =
      concat
        (override set_num_trainer (7 ∷ []) (
          override set_num_sampler (1 ∷ []) (
            override set_cache_percent (percent_gen 7 7 1)
              (override set_dataset (uk_2006_05 ∷ []) cur_common_base))))
        cfg_list_collector in
    let cur_common_base =
      override set_sample_type (weighted_khop_prefix ∷ [])
        (override set_app (gcn ∷ []) cur_common_base) in
    let cfg_list_collector =
      concat
        (override set_cache_percent (percent_gen 24 24 1)
          (override set_dataset (twitter ∷ []) cur_common_base))
        cfg_list_collector in
    let cfg_list_collector =
      concat
        (override set_cache_percent (percent_gen 21 21 1)
          (override set_dataset (papers100m ∷ []) cur_common_base))
        cfg_list_collector in
    let phase1 : Phase = record { configs = cfg_list_collector; after = nothing } in phase1 ∷ []
