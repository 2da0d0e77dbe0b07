-- ===== src/RunnerHelper/RunConfig.antt =====
-- class RunConfig of exp/common/runner_helper.py.
use fgnn_artifacts.Prelude.{
  ℕ, ◌*◌, String, ◌<>◌, Bool, true, false, Option, none, List, [], ◌∷◌, ◌++◌, ltb, ◌==◌,
  if◌then◌else◌,
}
use fgnn_artifacts.Prelude.Text.{show, join}
use fgnn_artifacts.Runner.Value.{App, pinsage, show_app, show_value, int, hundredths}
use fgnn_artifacts.RunnerHelper.Doubles.{percent_of}
use fgnn_artifacts.RunnerHelper.Options.{
  System, samgraph, system_name, CachePolicy, no_cache, policy_log_fname, Arch, arch3, SampleType,
  default_for_app, random_walk, khop2, sample_type_name, Dataset, show_dataset,
}

-- A cache size: an int, or the float nearest to a number of hundredths. The scripts have no other.
pub data Percent : Type 0 where
  whole : ℕ → Percent
  part : ℕ → Percent

-- `str(p)`
abbrev pub show_percent : Percent → String
show_percent (whole n) = show_value (int n)
show_percent (part h) = show_value (hundredths h)

-- `int(p * 100)`
unfoldable pub rate : Percent → ℕ
unfolding percent_of
rate (whole n) = n * 100
rate (part h) = percent_of h

-- multi_gpu, multi_gpu_sgnn, async_train, dgl_gpu_sampling and pipeline are tested only for truth.
-- `lr` is the text of the number, if it is not None.
pub record RunConfig : Type 0 where
  pub app : App
  pub dataset : Dataset
  pub cache_policy : CachePolicy
  pub cache_percent : Percent
  pub pipeline : Bool
  pub sample_job : ℕ
  pub copy_job : ℕ
  pub arch : Arch
  pub epoch : ℕ
  pub batch_size : ℕ
  pub logdir : String
  pub sample_type : SampleType
  pub report_optimal : ℕ
  pub profile_level : ℕ
  pub multi_gpu : Bool
  pub multi_gpu_sgnn : Bool
  pub empty_feat : ℕ
  pub log_level : String
  pub custom_arg : String
  pub async_train : Bool
  pub num_sampler : ℕ
  pub num_trainer : ℕ
  pub lr : Option String
  pub cuda_launch_blocking : ℕ
  pub dump_trace : ℕ
  pub system : System
  pub dgl_gpu_sampling : Bool
  pub nv_prof : Bool
  pub root_path : String

-- `RunConfig(app, dataset, cache_policy, cache_percent, pipeline)` with the other arguments left to
-- their defaults. The default of logdir, which has the time in its name, is an argument here.
unfoldable pub run_config : App → Dataset → CachePolicy → Percent → Bool → String → RunConfig
run_config app dataset cache_policy cache_percent pipeline logdir = record {
  app = app;
  dataset = dataset;
  cache_policy = cache_policy;
  cache_percent = cache_percent;
  pipeline = pipeline;
  sample_job = 10;
  copy_job = 2;
  arch = arch3;
  epoch = 3;
  batch_size = 8000;
  logdir = logdir;
  sample_type = default_for_app;
  report_optimal = 0;
  profile_level = 1;
  multi_gpu = false;
  multi_gpu_sgnn = false;
  empty_feat = 0;
  log_level = "warn";
  custom_arg = "";
  async_train = false;
  num_sampler = 1;
  num_trainer = 1;
  lr = none;
  cuda_launch_blocking = 0;
  dump_trace = 0;
  system = samgraph;
  dgl_gpu_sampling = true;
  nv_prof = false;
  root_path = "/graph-learning/samgraph/";
}

abbrev pub cache_log_name : RunConfig → List String
cache_log_name c = elim c.cache_policy [ no_cache ↦ [] | _ ↦ "cache" ∷ [] ]

abbrev pub pipe_log_name : RunConfig → List String
pipe_log_name c = if c.pipeline then "pipeline" ∷ [] else []

abbrev default_sample_type : App → SampleType
default_sample_type pinsage = random_walk
default_sample_type _ = khop2

-- The sample type of the app replaces the default one.
unfoldable pub preprocess_sample_type : RunConfig → RunConfig
preprocess_sample_type c = elim c.sample_type [
  | default_for_app ↦ record c { sample_type = default_sample_type c.app }
  | _ ↦ c
]

-- `f'{n:0>3}'`
unfoldable pub pad3 : ℕ → String
pad3 n = if ltb n 10 then "00" <> show n else (if ltb n 100 then "0" <> show n else show n)

-- The words that get_log_fname and beauty share, for a configuration with its sample type set.
abbrev pub words : RunConfig → List String
words c =
    (system_name c.system ∷ cache_log_name c)
    ++ (pipe_log_name c
        ++ (show_app c.app
            ∷ sample_type_name c.sample_type
            ∷ show_dataset c.dataset
            ∷ policy_log_fname c.cache_policy
            ∷ []))

-- The name for a configuration with its sample type set.
unfoldable pub log_fname : RunConfig → String
unfolding policy_log_fname rate pad3
log_fname c =
    c.logdir
    <> ("/"
        <> ((if c.report_optimal == 1 then "report_optimal_" else "")
            <> join "_" (
                words c
                ++ (("cache_rate_" <> pad3 (rate c.cache_percent))
                    ∷ ("batch_size_" <> show c.batch_size)
                    ∷ []))))

unfoldable pub get_log_fname : RunConfig → String × RunConfig
unfolding preprocess_sample_type log_fname
get_log_fname c = let c' = preprocess_sample_type c in (log_fname c', c')

unfoldable pub beauty : RunConfig → String × RunConfig
unfolding preprocess_sample_type policy_log_fname rate pad3
beauty c =
    let c' = preprocess_sample_type c in
    (
      join " " (
          "Running"
          ∷ (words c'
              ++ (("cache rate:" <> (pad3 (rate c'.cache_percent) <> "%"))
                  ∷ ("batch size:" <> show c'.batch_size)
                  ∷ []))),
      c',
    )
