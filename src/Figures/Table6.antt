-- ===== src/Figures/Table6.antt =====
-- exp/table6/runner.py: the lists that the script runs, statement by statement.
use fgnn_artifacts.Prelude.{[], ◌∷◌, false, true, String, List}
use fgnn_artifacts.Runner.Value.{gcn}
use fgnn_artifacts.RunnerHelper.Options.{
  cache_by_presample_1, products, twitter, papers100m, uk_2006_05,
}
use fgnn_artifacts.RunnerHelper.RunConfig.{whole}
use fgnn_artifacts.RunnerHelper.ConfigList.{config_list, override, empty, concat, percent_gen}
use fgnn_artifacts.Figures.Phases.{
  set_app, set_copy_job, set_sample_job, set_cache_percent, set_epoch, set_pipeline, set_logdir,
  set_cache_policy, set_profile_level, set_log_level, set_multi_gpu, set_dataset, nothing, Phase,
}

unfoldable pub table6_phases : String → List Phase
unfolding config_list override concat percent_gen
table6_phases log_dir =
    let cur_common_base = override set_multi_gpu (true ∷ []) (
      override set_log_level ("error" ∷ []) (
        override set_profile_level (3 ∷ []) (
          override set_cache_policy (cache_by_presample_1 ∷ []) (
            override set_logdir ("run-logs" ∷ []) (
              override set_pipeline (false ∷ []) (
                override set_epoch (3 ∷ []) (
                  override set_cache_percent (whole 0 ∷ []) (
                    override set_sample_job (1 ∷ []) (
                      override set_copy_job (1 ∷ [])
                        (override set_app (gcn ∷ []) (config_list log_dir))))))))))) in
    let cfg_list_collector = empty in
    let cfg_list_collector =
      concat
        (override set_cache_percent (percent_gen 100 100 1)
          (override set_dataset (products ∷ []) cur_common_base))
        cfg_list_collector in
    let cfg_list_collector =
      concat
        (override set_cache_percent (percent_gen 24 24 1)
          (override set_dataset (twitter ∷ []) cur_common_base))
        cfg_list_collector in
    let cfg_list_collector =
      concat
        (override set_cache_percent (percent_gen 20 20 1)
          (override set_dataset (papers100m ∷ []) cur_common_base))
        cfg_list_collector in
    let cfg_list_collector =
      concat
        (override set_cache_percent (percent_gen 13 13 1)
          (override set_dataset (uk_2006_05 ∷ []) cur_common_base))
        cfg_list_collector in
    let phase1 : Phase = record { configs = cfg_list_collector; after = nothing } in phase1 ∷ []
