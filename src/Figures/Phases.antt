-- ===== src/Figures/Phases.antt =====
-- What the scripts exp/<name>/runner.py do: they run one list, and then perhaps another, and a
-- function is called after each configuration.
use fgnn_artifacts.Prelude.{
  ℕ, String, ◌<>◌, Bool, true, false, ◌||◌, ◌=ˢ◌, if◌then◌else◌, none, some, List, [], ◌∷◌, ok,
}
use fgnn_artifacts.Runner.Os.{Os, Io, pure, bind}
use fgnn_artifacts.Runner.Value.{App}
use fgnn_artifacts.RunnerHelper.Options.{CachePolicy, Dataset, SampleType}
use fgnn_artifacts.RunnerHelper.RunConfig.{RunConfig, Percent, get_log_fname}
use fgnn_artifacts.RunnerHelper.Execution.{Callback, run_in_list}
use fgnn_artifacts.RunnerHelper.ConfigList.{ConfigList}

-- The attributes that the scripts override.
abbrev pub set_app : App → RunConfig → RunConfig
set_app v c = record c { app = v }

abbrev pub set_dataset : Dataset → RunConfig → RunConfig
set_dataset v c = record c { dataset = v }

abbrev pub set_cache_policy : CachePolicy → RunConfig → RunConfig
set_cache_policy v c = record c { cache_policy = v }

abbrev pub set_cache_percent : Percent → RunConfig → RunConfig
set_cache_percent v c = record c { cache_percent = v }

abbrev pub set_pipeline : Bool → RunConfig → RunConfig
set_pipeline v c = record c { pipeline = v }

abbrev pub set_sample_job : ℕ → RunConfig → RunConfig
set_sample_job v c = record c { sample_job = v }

abbrev pub set_copy_job : ℕ → RunConfig → RunConfig
set_copy_job v c = record c { copy_job = v }

abbrev pub set_epoch : ℕ → RunConfig → RunConfig
set_epoch v c = record c { epoch = v }

abbrev pub set_logdir : String → RunConfig → RunConfig
set_logdir v c = record c { logdir = v }

abbrev pub set_sample_type : SampleType → RunConfig → RunConfig
set_sample_type v c = record c { sample_type = v }

abbrev pub set_report_optimal : ℕ → RunConfig → RunConfig
set_report_optimal v c = record c { report_optimal = v }

abbrev pub set_profile_level : ℕ → RunConfig → RunConfig
set_profile_level v c = record c { profile_level = v }

abbrev pub set_log_level : String → RunConfig → RunConfig
set_log_level v c = record c { log_level = v }

abbrev pub set_multi_gpu : Bool → RunConfig → RunConfig
set_multi_gpu v c = record c { multi_gpu = v }

abbrev pub set_num_sampler : ℕ → RunConfig → RunConfig
set_num_sampler v c = record c { num_sampler = v }

abbrev pub set_num_trainer : ℕ → RunConfig → RunConfig
set_num_trainer v c = record c { num_trainer = v }

-- What is called after a configuration has run: nothing, copy_optimal or rm_optimal.
pub data After : Type 0 where
  nothing copy_optimal rm_optimal : After

pub record Phase : Type 0 where
  pub configs : ConfigList
  pub after : After

-- The loop over `argv[1:]` that sets do_mock and durable_log.
unfoldable pub flags : List String → Bool → Bool → Bool × Bool
flags [] mock durable_log = (mock, durable_log)
flags (arg ∷ args) mock durable_log =
    if (arg =ˢ "-m") || (arg =ˢ "--mock")
    then flags args true durable_log
    else (if (arg =ˢ "-i") || (arg =ˢ "--interactive")
        then flags args mock false
        else flags args mock durable_log)

module _ (os : Os) where
  abbrev commands : List String → os.State → os.State
  commands [] s = s
  commands (cmd ∷ cmds) s = commands cmds (os.system cmd s).1

  unfoldable pub callback_of : After → Callback os
  unfolding get_log_fname
  callback_of nothing = none
  callback_of copy_optimal = some λ c s.
      let (fname, c') = get_log_fname c in
      ok (
        c',
        commands
            (("rm -f \"" <> (fname <> "_optimal_cache_hit.txt\""))
              ∷ ("mv node_access_optimal_cache_hit* \"" <> (fname <> "_optimal_cache_hit.txt\""))
              ∷ "rm -f node_access_optimal_cache_*"
              ∷ [])
            s,
      )
  callback_of rm_optimal = some λ c s. ok (c, commands ("rm -f node_access_optimal_cache_*" ∷ []) s)

  -- The calls of run_in_list. What they leave in the lists is returned.
  unfoldable pub run_phases : Bool → Bool → List Phase → Io os (List ConfigList)
  unfolding run_in_list callback_of
  run_phases mock durable_log [] = pure os []
  run_phases mock durable_log (phase ∷ phases) =
      bind os (run_in_list os mock durable_log (callback_of phase.after) phase.configs)
        λ cs. bind os (run_phases mock durable_log phases) λ css. pure os (cs ∷ css)

  -- The main part of a script, with its arguments.
  unfoldable pub main : List String → List Phase → Io os (List ConfigList)
  unfolding flags run_phases
  main args phases =
      let (mock, durable_log) = flags args false true in run_phases mock durable_log phases
