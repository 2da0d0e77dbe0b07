-- ===== src/Figures/Fig4b.antt =====
-- exp/fig4b/runner.py: the lists that the script runs, statement by statement.
use fgnn_artifacts.Prelude.{[], ◌∷◌, false, true, String, List}
use fgnn_artifacts.Runner.Value.{gcn}
use fgnn_artifacts.RunnerHelper.Options.{khop2, papers100m, cache_by_degree, arch3}
use fgnn_artifacts.RunnerHelper.RunConfig.{whole}
use fgnn_artifacts.RunnerHelper.ConfigList.{
  config_list, override, empty, concat, percent_gen, set_arch,
}
use fgnn_artifacts.Figures.Phases.{
  set_app, set_sample_type, set_dataset, set_cache_policy, set_copy_job, set_sample_job,
  set_pipeline, set_epoch, set_logdir, set_profile_level, set_log_level, set_multi_gpu,
  set_cache_percent, nothing, set_report_optimal, copy_optimal, Phase,
}

unfoldable pub fig4b_phases : String → List Phase
unfolding config_list override concat percent_gen
fig4b_phases log_dir =
    let cur_common_base = override set_multi_gpu (true ∷ []) (
      override set_log_level ("error" ∷ []) (
        override set_profile_level (3 ∷ []) (
          override set_logdir ("run-logs" ∷ []) (
            override set_epoch (3 ∷ []) (
              override set_pipeline (false ∷ []) (
                override set_sample_job (1 ∷ []) (
                  override set_copy_job (1 ∷ []) (
                    override set_cache_policy (cache_by_degree ∷ []) (
                      override set_dataset (papers100m ∷ []) (
                        override set_sample_type (khop2 ∷ [])
                          (override set_app (gcn ∷ []) (config_list log_dir)))))))))))) in
    let cfg_list_collector = empty in
    let cfg_list_collector =
      concat
        (override set_cache_policy (cache_by_degree ∷ [])
          (override set_cache_percent (percent_gen 0 30 1) cur_common_base))
        cfg_list_collector in
    let phase1 : Phase = record { configs = cfg_list_collector; after = nothing } in
    let cur_common_base = override set_cache_percent (whole 0 ∷ []) (
      override set_report_optimal (1 ∷ [])
        (override set_multi_gpu (false ∷ []) (override set_arch (arch3 ∷ []) cur_common_base))) in
    let phase2 : Phase = record { configs = cur_common_base; after = copy_optimal } in
    phase1 ∷ phase2 ∷ []
