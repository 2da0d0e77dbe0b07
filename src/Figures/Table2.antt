-- ===== src/Figures/Table2.antt =====
-- exp/table2/runner.py: the lists that the script runs, statement by statement.
use fgnn_artifacts.Prelude.{[], ◌∷◌, false, String, List}
use fgnn_artifacts.Runner.Value.{gcn, pinsage}
use fgnn_artifacts.RunnerHelper.Options.{
  cache_by_degree, arch3, khop2, random_walk, weighted_khop_prefix, products, twitter, papers100m,
  uk_2006_05,
}
use fgnn_artifacts.RunnerHelper.ConfigList.{
  config_list, override, set_arch, percent_gen, empty, concat,
}
use fgnn_artifacts.Figures.Phases.{
  set_copy_job, set_sample_job, set_pipeline, set_epoch, set_logdir, set_cache_policy,
  set_profile_level, set_log_level, set_multi_gpu, set_cache_percent, set_report_optimal, set_app,
  set_sample_type, set_dataset, rm_optimal, Phase,
}

unfoldable pub table2_phases : String → List Phase
unfolding config_list override concat percent_gen
table2_phases log_dir =
    let cur_common_base = override set_report_optimal (1 ∷ []) (
      override set_cache_percent (percent_gen 0 0 1) (
        override set_multi_gpu (false ∷ []) (
          override set_arch (arch3 ∷ []) (
            override set_log_level ("error" ∷ []) (
              override set_profile_level (3 ∷ []) (
                override set_cache_policy (cache_by_degree ∷ []) (
                  override set_logdir ("run-logs" ∷ []) (
                    override set_epoch (3 ∷ []) (
                      override set_pipeline (false ∷ []) (
                        override set_sample_job (1 ∷ [])
                          (override set_copy_job (1 ∷ []) (config_list log_dir)))))))))))) in
    let cfg_list_collector = empty in
    let cfg_list_collector =
      concat (override set_sample_type (khop2 ∷ []) (override set_app (gcn ∷ []) cur_common_base))
        cfg_list_collector in
    let cfg_list_collector =
      concat
        (override set_sample_type (random_walk ∷ [])
          (override set_app (pinsage ∷ []) cur_common_base))
        cfg_list_collector in
    let cfg_list_collector =
      concat
        (override set_sample_type (weighted_khop_prefix ∷ [])
          (override set_app (gcn ∷ []) cur_common_base))
        cfg_list_collector in
    let cfg_list_collector =
      override set_dataset (products ∷ twitter ∷ papers100m ∷ uk_2006_05 ∷ []) cfg_list_collector in
    let phase1 : Phase = record { configs = cfg_list_collector; after = rm_optimal } in phase1 ∷ []
